-- ===== src/Lib.antt =====
-- The dashboard of secureVOTE (dashboard/, TypeScript), its logic as definitions and theorems.
--
-- The dashboard is a client of the election backend: `request` of dashboard/lib/api-client.ts talks to
-- it for all pages, AuthContext keeps the session and is told of lost ones by the client, the
-- WebSocket hook brings events or polls, the EVM terminal casts ballots, and the verifiers, the audit
-- page and the counting center recompute from what the backend exports. The backend and the browser
-- are arguments: a response, a reply or an event. Some theorems assume something of the backend: that
-- it answers for an identifier with the election that has it, with its results or with its devices,
-- that it knows every state and constituency, or that it keeps elections as they are where it refuses.
-- State that is set between two awaits is rendered once, as React 18 does.
--
-- Base: the names that all modules share. Lists, texts, association lists for Record<string, V>, a
--   stable sort, and replies of awaited calls.
-- Types: dashboard/lib/types.ts, with Types.Export for the archive, Types.Results for the verdict,
--   Types.Reports for the audit log and the published results, and Types.Registers for the roll, the
--   stations, complaints, findings and card taps. Types.Samples has test data.
-- Verify: dashboard/app/(public)/verify/page.tsx. Verify.Checks are the loops of
--   runVerificationOnData, run_verification its pure part, Verify.Page the state with
--   handleFetchAndVerify, handleSimulateTamper and handleFileUpload. Verify.Box is about the ballots
--   without their order, as a quotient.
-- Audit: dashboard/app/(officer)/audit/page.tsx, handleRunIndependentVerification, and in
--   Audit.Entries the page's state, its handlers and its filters.
-- Evm: dashboard/components/evm/EvmTerminal.tsx and EvmControlPanel.tsx. Evm.Setup is the effect,
--   Evm.Handlers the handlers up to their first await or timer, Evm.Resume what comes behind it, and
--   Evm.Loop the event loop, in which continuations are answered in any order. Evm.View is what the
--   buttons, the lamps and the slip show, with the components beside EvmTerminal.tsx; Evm.Conserved,
--   Evm.Pressed and Evm.Sessions, which builds on Evm.Budget, are about the ballots in any order of the
--   continuations, Evm.Ballots and Evm.Opens about when a ballot is cast and when the terminal opens,
--   Evm.Races about two sessions at once, Evm.Slip about the slip, Evm.Slate about none of the above,
--   and Evm.Archive joins terminals with Verify.
-- Launcher: dashboard/app/(evm)/evm/page.tsx, from where terminals are launched, in Launcher.Fetches
--   what a fetch changes and in Launcher.Machine the page with its calls under way.
-- Api: dashboard/lib/api-client.ts and dashboard/lib/format-error.ts. Api.Client is request in two
--   parts, Api.Elections, Api.Records and Api.Services are the methods of api, Api.Calls what they send
--   and return, Api.FormatError is formatApiError; Api.Json and Api.Stringify are JavaScript's values
--   and their texts.
-- WebSocket: dashboard/lib/use-websocket.ts. Auth: dashboard/context/AuthContext.tsx, with the calls
--   under way as continuations; Auth.Lost joins it with the client's receive, and
--   Auth.Login is dashboard/app/login/page.tsx.
-- Counting: dashboard/app/(officer)/election/counting/page.tsx, with the exported sheet in
--   Counting.Form20, a reader of comma-separated values in Counting.Csv, and the sheet of the polling
--   stations in Counting.Stations.
-- Selection: dashboard/context/ElectionContext.tsx and dashboard/lib/hooks/useActiveElection.ts.
-- Lifecycle: dashboard/app/(officer)/command/page.tsx, the stages and handleStateTransition, and
--   fetchElectionData in Lifecycle.Overview.
-- Officer: dashboard/app/(officer)/results/page.tsx in Officer.Results, with all its handlers
--   as a machine over their continuations in Officer.Reload, which Officer.Shown and Officer.Ends are
--   about, and dashboard/app/(officer)/devices/page.tsx in Officer.Devices.
-- Attacks: dashboard/app/(officer)/election/attacks/page.tsx, a machine over buttons and timers.
-- Security: dashboard/app/(officer)/security/page.tsx. Desk: pages of dashboard/app/(officer)/election
--   on the selected election: Desk.Pages (polling-stations, devices, complaints), Desk.Polls (polling,
--   verification), Desk.Single (counting, audit, observers), Desk.Setup, Desk.Simulation,
--   Desk.Candidates with Desk.Store, which joins it with Selection and a backend, Desk.Winner (results),
--   Desk.Archive (reports, transparency), and in Desk.Verdicts what verification and audit read of the
--   backend's verdicts.
-- Layout: dashboard/components, the sidebar in Layout.Sidebar and Layout.Highlight, and in Layout.Badges
--   common/StatusBadge.tsx and election/ElectionSelector.tsx.
-- Portal: dashboard/app/(public)/map/page.tsx with its fetches as a machine, in Portal.InOrder where they
--   are answered in order, and the pages of dashboard/app/(public)/transparency.
-- Voter: pages of dashboard/app/(public)/voter (roll, profile, polling-station, register, eligibility,
--   status, complaints, overseas, candidates), each handler as a whole.
--
-- Numbers are natural, since the program counts with them, but for the position that a candidate is
-- given, which parseInt reads; where it subtracts, the definition or a
-- theorem says why the difference is not negative. Lengths of texts are in code points, which agree
-- with JavaScript's for ASCII. Keys of a Record are taken not to be names that every object inherits.
-- Values of JSON have no cycles. A reply is one value, so what the network does meanwhile is left to
-- the order of the events. The only fuel is in the digits of a number, where n + 1 rounds are enough
-- for n. In the EVM terminal the token does not change during a run; sound, alerts and errorMsg, which
-- is never set, are left out. In Auth a login's answer without a text as its access token counts as a
-- failure.
--
-- Not modelled: markup, the pages that only show a fixed text or list (parties, help, vote, the start
-- pages), the backend and the standalone verifier (Python), the firmware (C++) and the scripts, which are in other languages.
pub mod Base
pub mod Types
pub mod Verify
pub mod Audit
pub mod Evm
pub mod Launcher
pub mod Layout
pub mod Api
pub mod WebSocket
pub mod Auth
pub mod Counting
pub mod Selection
pub mod Lifecycle
pub mod Officer
pub mod Portal
pub mod Attacks
pub mod Voter
pub mod Security
pub mod Desk
