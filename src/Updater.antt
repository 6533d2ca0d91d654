-- ===== src/Updater.antt =====
-- updater/updater.go and updater/state.go: the helper that installs a version of the agent, waits
-- until the new agent is ready, and rolls back if it is not. This file has the helper's files and the
-- machine, and what a call of the operating system or of the package manager does to it.
-- Each such call takes its outcome from `calls`, and an empty list means that it works. A call may
-- also be the one during which the helper dies. An error is kept as its cause; the text of it, which
-- the code cuts to 4096 bytes, is not modelled. Between two polls the agent may write its readiness,
-- as `arrivals` says. A file is there with a content that decodes, or it is not there.
pub mod Versions
pub mod Run
pub mod Steps
pub mod Ends
pub mod Install
pub mod Resume
pub mod Attempts
pub mod Stale
pub mod Success
mod Examples
use backupchief_agent.Base.{
  ℕ, String, Bool, true, false, not, ◌&&◌, ◌||◌, List, [], ◌∷◌, Option, none, some, str_eq, leb,
  ◌==◌, if◌then◌else◌, Text, same_text, split, is_blank, all,
}
use backupchief_agent.Ulid.{is_ulid}

pub record Request : Type 0 where
  pub command_id : String
  pub run_id : String
  pub generation : ℕ
  pub previous_version : Text
  pub target_version : Text
  pub started_at : String

pub record Readiness : Type 0 where
  pub command_id : String
  pub run_id : String
  pub version : Text

pub data Phase : Type 0 where
  preflight installing rolling_back other_phase : Phase

-- The causes of errors.
pub data Problem : Type 0 where
  call_failed timed_out cancelled not_newer bad_request state_mismatch bad_phase : Problem
  unexpected_version : Text → Problem
  install_failed unavailable_for_rollback : Problem → Problem
  joined : Problem → Problem → Problem

-- `durableState`.
pub record DurableState : Type 0 where
  pub request : Request
  pub previous_package_version : Text
  pub phase : Phase
  pub diagnostic : Option Problem

pub data Status : Type 0 where
  complete failed : Status

pub data ResultCode : Type 0 where
  success already_installed target_not_newer preflight_failed installation_failed rollback_failed
        readiness_failed_rolled_back :
      ResultCode

pub record Result : Type 0 where
  pub generation : ℕ
  pub run_id : String
  pub status : Status
  pub result_code : ResultCode
  pub previous_version : Text
  pub target_version : Text
  pub installed_version : Text
  pub started_at : String
  pub finished_at : ℕ
  pub diagnostic : Option Problem

-- A call works, fails or is the last one of the helper; a call of the package manager that does not
-- work may leave another version.
pub data Call : Type 0 where
  works : Call
  fails : Option Text → Call
  dies : Option Text → Call

-- What a wait for the next poll brings.
pub data Arrival : Type 0 where
  tick deadline done killed : Arrival
  written : Readiness → Arrival

pub record Machine : Type 0 where
  pub installed : Text
  pub request_file : Option Request
  pub state_file : Option DurableState
  pub readiness_file : Option Readiness
  pub result_file : Option Result
  pub locked : Bool
  pub calls : List Call
  pub arrivals : List Arrival
  pub clock : ℕ

-- A part of the helper: the machine after it, and its answer, or none when the helper has died.
abbrev pub Act : Type 0 → Type 0
Act A = Machine → Option A × Machine

unfoldable pub continue : {A B : Type 0} → Option A → (A → Act B) → Act B
continue none k m = (none, m)
continue (some a) k m = k a m

infixl 5 ◌>>=◌
abbrev pub ◌>>=◌ : {A B : Type 0} → Act A → (A → Act B) → Act B
◌>>=◌ act k m = let (a, m') = act m in continue a k m'

abbrev pub ret : {A : Type 0} → A → Act A
ret a m = (some a, m)

abbrev pub get : {A : Type 0} → (Machine → A) → Act A
get f m = (some (f m), m)

abbrev pub next_call : List Call → Call
next_call [] = works
next_call (c ∷ cs) = c

abbrev pub calls_after : List Call → List Call
calls_after [] = []
calls_after (c ∷ cs) = cs

abbrev pub left_behind : Option Text → Machine → Machine
left_behind none m = m
left_behind (some v) m = record m { installed = v }

unfoldable pub answer :
    Call → (Machine → Machine) → (Option Text → Machine → Machine) → Act (Option Problem)
answer works effect harm m = (some none, effect m)
answer (fails left) effect harm m = (some (some call_failed), harm left m)
answer (dies left) effect harm m = (none, harm left m)

-- A call that has an effect if it works; the answer is its error.
abbrev pub call : (Machine → Machine) → (Option Text → Machine → Machine) → Act (Option Problem)
call effect harm m =
    answer (next_call m.calls) effect harm (record m { calls = calls_after m.calls })

-- A call that changes no package.
abbrev pub file_call : (Machine → Machine) → Act (Option Problem)
file_call effect = call effect (λ left m. m)

abbrev pub query : Act (Option Problem)
query = file_call (λ m. m)

-- `Install` and `Downgrade`.
abbrev pub change_package : Text → Act (Option Problem)
change_package version = call (λ m. record m { installed = version }) left_behind

abbrev pub write_state : DurableState → Act (Option Problem)
write_state s = file_call (λ m. record m { state_file = some s })

abbrev pub write_result : Result → Act (Option Problem)
write_result r = file_call (λ m. record m { result_file = some r })

abbrev pub remove_request : Act (Option Problem)
remove_request = file_call (λ m. record m { request_file = none })

abbrev pub remove_state : Act (Option Problem)
remove_state = file_call (λ m. record m { state_file = none })

abbrev pub remove_readiness : Act (Option Problem)
remove_readiness = file_call (λ m. record m { readiness_file = none })

abbrev pub is_digit : ℕ → Bool
is_digit c = leb b'0' c && leb c b'9'

-- 0, or digits of which the first is not 0.
abbrev is_version_part : Text → Bool
is_version_part [] = false
is_version_part (c ∷ cs) = all is_digit (c ∷ cs) && (is_blank cs || not (c == b'0'))

abbrev is_version_parts : List Text → Bool
is_version_parts (a ∷ b ∷ c ∷ []) = is_version_part a && is_version_part b && is_version_part c
is_version_parts _ = false

-- `versionPattern`.
unfoldable pub is_version : Text → Bool
is_version v = is_version_parts (split b'.' v)

-- `validateRequest`.
unfoldable pub is_valid_request : Request → Bool
is_valid_request r =
    is_ulid r.command_id
    && is_ulid r.run_id
    && not (r.generation == 0)
    && is_version r.previous_version
    && is_version r.target_version
    && not (str_eq r.started_at "")

-- `sameRequest`.
unfoldable pub same_request : Request → Request → Bool
same_request l r =
    str_eq l.command_id r.command_id
    && str_eq l.run_id r.run_id
    && l.generation == r.generation
    && same_text l.target_version r.target_version
    && str_eq l.started_at r.started_at

-- `if err := …; err != nil { return … }`
abbrev pub on_error :
    Option Problem → (Problem → Act (Option Problem)) → Act (Option Problem) → Act (Option Problem)
on_error (some p) handle rest = handle p
on_error none handle rest = rest

abbrev pub or_return : Option Problem → Act (Option Problem) → Act (Option Problem)
or_return e rest = on_error e (λ p. ret (some p)) rest
