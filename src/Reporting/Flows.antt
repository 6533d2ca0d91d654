-- ===== src/Reporting/Flows.antt =====
-- What holds after a part of `flushCommand`, whichever way the code goes there.
use backupchief_agent.Base.{Bool, true, false, Option, none, some, if◌then◌else◌}
use backupchief_agent.Store.{Err}
use backupchief_agent.Reporting.{Flusher, Flow, goes_on, returns}

-- Whether a part is followed by another or not.
pub either_way :
    (P : Flusher → Type 0) (flow : Flow) (f : Flusher) (rest : Flow × Flusher)
    → P f
    → P rest.1
    → P (elim flow as (λ x. Flow × Flusher) [ returns e ↦ (returns e, f) | goes_on ↦ rest ]).1
either_way P goes_on f rest h h' = h'
either_way P (returns e) f rest h h' = h

pub either_end :
    (P : Flusher → Type 0) (flow : Flow) (f : Flusher) (rest : Option Err × Flusher)
    → P f
    → P rest.1
    → P (elim flow as (λ x. Option Err × Flusher) [ returns e ↦ (e, f) | goes_on ↦ rest ]).1
either_end P goes_on f rest h h' = h'
either_end P (returns e) f rest h h' = h

-- Whether a save succeeds or not.
pub either_save :
    (P : Flusher → Type 0) (o : Option Err) (f : Flusher)
    → P f
    → P
        (elim o as (λ x. Flow × Flusher) [
          | some err ↦ (returns (some err), f)
          | none ↦ (goes_on, f)
        ]).1
either_save P none f h = h
either_save P (some err) f h = h

pub either_removal :
    (P : Flusher → Type 0) (o removed end : Option Err) (f : Flusher)
    → P f
    → P
        (elim o as (λ x. Option Err × Flusher) [
          | some err ↦ (some err, f)
          | none ↦ elim removed as (λ x. Option Err × Flusher) [
            | some err ↦ (some err, f)
            | none ↦ (end, f)
          ]
        ]).1
either_removal P (some err) removed end f h = h
either_removal P none none end f h = h
either_removal P none (some err) end f h = h

pub either_if :
    (P : Flusher → Type 0) (b : Bool) (x y : Option Err × Flusher)
    → P x.1
    → P y.1
    → P (if b then x else y).1
either_if P true x y h h' = h
either_if P false x y h h' = h'
