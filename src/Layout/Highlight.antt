-- ===== src/Layout/Highlight.antt =====
-- dashboard/components/layout/Sidebar.tsx: the links that are highlighted on one page.
use secure_vote.Base.{
  String, ◌≡◌, refl, sym, ap, subst, ◌∙◌, ◌⊎◌, inl, inr, ◌<>◌, Bool, true, not, ◌&&◌, ◌||◌, List,
  [], ◌∷◌, all, keep, ◌++◌, Bool-cases, starts_with, ◌===◌, eq_iff, arith,
}
use secure_vote.Layout.Sidebar.{NavItem, nav_sections, all_items, is_current, highlighted}
use text.Mathlib.TextBridge.{IsPrefix}
use text.Mathlib.TextEquality.{starts_with_iff}
use text.Mathlib.TextLemmas.{
  nil-append, cons-append, append-nil, append_assoc, head-eq_of_cons-eq, tail-eq_of_cons-eq,
}
use Prim.Native.Char.{Char}

IsPrefix-cons :
    (c d : Char) (a b : String) → c ≡ d → IsPrefix a b → IsPrefix (String.◌∷◌ c a) (String.◌∷◌ d b)
IsPrefix-cons c d a b e (u, h) = (u, rw (cons-append c a u, h, e) refl)

-- Of two beginnings of a text one is a beginning of the other.
IsPrefix-total : (a b t : String) → IsPrefix a t → IsPrefix b t → IsPrefix a b ⊎ IsPrefix b a
IsPrefix-total String.[] b t p q = inl (b, nil-append b)
IsPrefix-total (String.◌∷◌ c a) String.[] t p q = inr (String.◌∷◌ c a, nil-append (String.◌∷◌ c a))
IsPrefix-total (String.◌∷◌ c a) (String.◌∷◌ d b) t (r, e) (s, f) =
    let h : String.◌∷◌ c (a <> r) ≡ String.◌∷◌ d (b <> s) =
      sym (cons-append c a r) ∙ e ∙ sym f ∙ cons-append d b s in
    let same : c ≡ d = head-eq_of_cons-eq h in
    elim (IsPrefix-total a b (b <> s) (r, tail-eq_of_cons-eq h) (s, refl)) [
      | inl k ↦ inl (IsPrefix-cons c d a b same k)
      | inr k ↦ inr (IsPrefix-cons d c b a (sym same) k)
    ]

-- The one link's pages include the other's.
abbrev pub covers : NavItem → NavItem → Bool
covers i j = starts_with (j.href <> "/") (i.href <> "/")

is_current-IsPrefix :
    (p : String) (i : NavItem) → is_current p i ≡ true → IsPrefix (i.href <> "/") (p <> "/")
unfolding is_current
is_current-IsPrefix p i h = elim (Bool-cases (p === i.href)) [
  | inl e ↦ ("", append-nil (i.href <> "/") ∙ ap (λ s. s <> "/") (sym ((eq_iff p i.href).0 e)))
  | inr e ↦
      let begins : IsPrefix (i.href <> "/") p = (starts_with_iff p (i.href <> "/")).0 (rw e at h) in
      (
        begins.0 <> "/",
        sym (append_assoc (i.href <> "/") begins.0 "/") ∙ ap (λ s. s <> "/") begins.1,
      )
]

one_covers :
    (p : String) (i j : NavItem)
    → is_current p i ≡ true
    → is_current p j ≡ true
    → (covers i j || covers j i) ≡ true
one_covers p i j h k =
    elim (IsPrefix-total (i.href <> "/") (j.href <> "/") (p <> "/") (is_current-IsPrefix p i h)
      (is_current-IsPrefix p j k)) [
        | inl q ↦ rw ((starts_with_iff (j.href <> "/") (i.href <> "/")).1 q) refl
        | inr q ↦
            let c : covers j i ≡ true = (starts_with_iff (i.href <> "/") (j.href <> "/")).1 q in
            ground (arith, c)
      ]

abbrev pub are_apart : List NavItem → Bool
are_apart [] = true
are_apart (i ∷ is) = all (λ j. not (covers i j || covers j i)) is && are_apart is

abbrev pub IsAtMostOne : List NavItem → Type 0
IsAtMostOne [] = Unit
IsAtMostOne (i ∷ []) = Unit
IsAtMostOne _ = ⊥

keep_none :
    (p : String) (i : NavItem) (is : List NavItem)
    → is_current p i ≡ true
    → all (λ j. not (covers i j || covers j i)) is ≡ true
    → keep (is_current p) is ≡ []
keep_none p i [] h k = refl
keep_none p i (j ∷ is) h k = elim (Bool-cases (is_current p j)) [
  | inl e ↦ ground (arith, one_covers p i j h e)
  | inr e ↦ ground (arith, keep_none p i is h)
]

keep-IsAtMostOne :
    (p : String) (is : List NavItem) → are_apart is ≡ true → IsAtMostOne (keep (is_current p) is)
keep-IsAtMostOne p [] h = tt
keep-IsAtMostOne p (i ∷ is) h = elim (Bool-cases (is_current p i)) [
  | inl e ↦
      let apart : all (λ j. not (covers i j || covers j i)) is ≡ true = ground (arith, h) in
      rw (e, keep_none p i is e apart) tt
  | inr e ↦ let rest : are_apart is ≡ true = ground (arith, h) in rw e (keep-IsAtMostOne p is rest)
]

none_after : (i : NavItem) (is : List NavItem) → IsAtMostOne (i ∷ is) → is ≡ []
none_after i [] h = refl
none_after i (j ∷ is) h = absurd h

only_one :
    (f : NavItem → Bool) (before : List NavItem) (i : NavItem) (after : List NavItem)
    → f i ≡ true
    → IsAtMostOne (keep f (before ++ i ∷ after))
    → keep f (before ++ i ∷ after) ≡ i ∷ []
only_one f [] i after e h = rw (e, none_after i (keep f after) (rw e at h)) refl
only_one f (b ∷ before) i after e h = elim (Bool-cases (f b)) [
  | inl c ↦
      let none_else : keep f (before ++ i ∷ after) ≡ [] =
        none_after b (keep f (before ++ i ∷ after)) (rw c at h) in
      let found : keep f (before ++ i ∷ after) ≡ i ∷ [] =
        only_one f before i after e (rw none_else tt) in
      cc (none_else, found)
  | inr c ↦ rw c (only_one f before i after e (rw c at h))
]

-- Where the page's path is that of one of the links or below it, exactly that link is highlighted,
-- so no path highlights two links.
pub highlighted-is_only :
    (pathname : String) (before : List NavItem) (i : NavItem) (after : List NavItem)
    → all_items nav_sections ≡ before ++ i ∷ after
    → is_current pathname i ≡ true
    → highlighted pathname ≡ i ∷ []
unfolding highlighted
highlighted-is_only pathname before i after e c =
    let f : NavItem → Bool = is_current pathname in
    let one : IsAtMostOne (keep f (before ++ i ∷ after)) =
      subst (λ l. IsAtMostOne (keep f l)) e
        (keep-IsAtMostOne pathname (all_items nav_sections) refl) in
    subst (λ l. keep f l ≡ i ∷ []) (sym e) (only_one f before i after c one)
