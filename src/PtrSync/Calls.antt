-- ===== src/PtrSync/Calls.antt =====
-- Sequences of calls of the write bundle by any number of callers. The write gate lets in one
-- transaction at a time, so every interleaving is such a sequence.
use hydrus_go.Base.{ℕ, Bool, true, false, not, Option, List, [], ◌∷◌}
use hydrus_go.Base.Strings.{Text, text_eq}
use hydrus_go.Base.Results.{Result, ok, err}
use hydrus_go.Base.Int.{ℤ}
use hydrus_go.PtrSync.{SyncError, Store, Status, Config}
use hydrus_go.PtrSync.Services.{Env}
use hydrus_go.PtrSync.Bundle.{
  Lease, begin_sync, recover_foundation, complete_success, cancel_sync, throttle_sync,
  finish_failure, update_metrics,
}

pub data Call : Type 0 where
  begin : Env → Config → Option Text → Call
  recover : Env → Config → Call
  complete : ℕ → Config → Text → Call
  cancel : ℕ → Config → Text → Call
  throttle : ℕ → Config → Text → ℤ → ℤ → Call
  fail : ℕ → Config → Text → Text → Call
  metrics : ℕ → Config → Text → ℤ → ℤ → Call

pub data Reply : Type 0 where
  leased : Lease → Reply
  reported : Status → Reply

abbrev pub replied :
    {A : Type 0} → (A → Reply) → Result SyncError A × Store → Result SyncError Reply × Store
replied reply (err e, s) = (err e, s)
replied reply (ok a, s) = (ok (reply a), s)

unfoldable pub perform : Call → Store → Result SyncError Reply × Store
perform (begin env cfg generated) s = replied leased (begin_sync env cfg generated s)
perform (recover env cfg) s = replied reported (recover_foundation env cfg s)
perform (complete now cfg token) s = replied reported (complete_success now cfg token s)
perform (cancel now cfg token) s = replied reported (cancel_sync now cfg token s)
perform (throttle now cfg token at_ms attempt) s =
    replied reported (throttle_sync now cfg token at_ms attempt s)
perform (fail now cfg token last_error) s =
    replied reported (finish_failure now cfg token last_error s)
perform (metrics now cfg token bytes ms) s =
    replied reported (update_metrics now cfg token bytes ms s)

unfoldable pub run : List Call → Store → Store
run [] s = s
run (call ∷ calls) s = run calls (perform call s).1

-- A call of somebody who does not hold the token: a begin, or a call with another token.
abbrev pub is_foreign : Text → Call → Bool
is_foreign token (begin _ _ _) = true
is_foreign token (recover _ _) = false
is_foreign token (complete _ _ used) = not (text_eq token used)
is_foreign token (cancel _ _ used) = not (text_eq token used)
is_foreign token (throttle _ _ used _ _) = not (text_eq token used)
is_foreign token (fail _ _ used _) = not (text_eq token used)
is_foreign token (metrics _ _ used _ _) = not (text_eq token used)

-- A call that ends a run with the token, or every run.
abbrev pub ends : Text → Call → Bool
ends token (begin _ _ _) = false
ends token (recover _ _) = true
ends token (complete _ _ used) = text_eq token used
ends token (cancel _ _ used) = text_eq token used
ends token (throttle _ _ used _ _) = text_eq token used
ends token (fail _ _ used _) = text_eq token used
ends token (metrics _ _ used _ _) = false
