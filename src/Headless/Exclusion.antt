-- ===== src/Headless/Exclusion.antt =====
-- Who is inside `stop` of the server, and who holds its lock: the code of `main`, a signal handler,
-- or the watcher of the kill switch.
use ida_pro_mcp.Prelude.{Option, none, some, ◌≡◌, refl, Bool-cases, Option-cases, inl, inr}
use ida_pro_mcp.Server.{
  Socket, Owner, main_code, handler_code, watcher_code, Server, StopPc, entering, holding, taken,
  waiting, closing, Stopped, blocked, goes_on, returns, stop_step, has_ended,
}
use ida_pro_mcp.Headless.{Pc, cleaning, aborting, Watcher, stopping, Process}

-- Where `main` and the watcher stand in `stop`, if they do.
unfoldable pub main_frame : Pc → Option StopPc
main_frame (cleaning pc) = some pc
main_frame (aborting pc) = some pc
main_frame _ = none

unfoldable pub watcher_frame : Watcher → Option StopPc
watcher_frame (stopping pc) = some pc
watcher_frame _ = none

-- Not in `stop`, or before its lock.
pub data Outside : Option StopPc → Type 0 where
  elsewhere : Outside none
  at_lock : Outside (some entering)

-- Behind the lock.
pub data Inside : Option StopPc → Type 0 where
  at_test : Inside (some holding)
  at_serving : (k : Socket) → Inside (some (taken k))
  at_shutdown : (k : Socket) → Inside (some (waiting k))
  at_close : (k : Socket) → Inside (some (closing k))

-- The lock's owner is inside, and nobody else is.
pub data Grip : Option Owner → Option StopPc → Option StopPc → Option StopPc → Type 0 where
  nobody : {m h w : Option StopPc} → Outside m → Outside h → Outside w → Grip none m h w
  main_has :
      {m h w : Option StopPc} → Inside m → Outside h → Outside w → Grip (some main_code) m h w
  handler_has :
      {m h w : Option StopPc} → Outside m → Inside h → Outside w → Grip (some handler_code) m h w
  watcher_has :
      {m h w : Option StopPc} → Outside m → Outside h → Inside w → Grip (some watcher_code) m h w

abbrev pub IsExclusive : Process → Type 0
IsExclusive s = Grip s.sv.lock (main_frame s.pc) s.handler (watcher_frame s.watcher)

-- What a step of `stop` does to the lock, by where its thread stood.
pub data Locked (who : Owner) : Option Owner → Option StopPc → Stopped → Type 0 where
  stays : {l : Option Owner} {p : Option StopPc} → Locked who l p blocked
  enters : (sv : Server) → sv.lock ≡ some who → Locked who none (some entering) (goes_on holding sv)
  moves :
      {l : Option Owner} {p : Option StopPc}
      → Inside p
      → (pc : StopPc) → Inside (some pc)
      → (sv : Server) → sv.lock ≡ l
      → Locked who l p (goes_on pc sv)
  leaves :
      {l : Option Owner} {p : Option StopPc}
      → Inside p
      → (sv : Server) → sv.lock ≡ none
      → Locked who l p (returns sv)

pub stop_step-lock :
    (who : Owner) (pc : StopPc) (sv : Server) → Locked who sv.lock (some pc) (stop_step who pc sv)
unfolding stop_step
stop_step-lock who entering sv = elim (Option-cases sv.lock) [
  | inl e ↦ rw e (enters _ refl)
  | inr (other, e) ↦ rw e stays
]
stop_step-lock who holding sv = elim (Option-cases sv.server) [
  | inl e ↦ rw e (leaves at_test _ refl)
  | inr (k, e) ↦ rw e (moves at_test _ (at_serving k) _ refl)
]
stop_step-lock who (taken k) sv = elim (Bool-cases sv.serving) [
  | inl e ↦ rw e (moves (at_serving k) _ (at_shutdown k) _ refl)
  | inr e ↦ rw e (moves (at_serving k) _ (at_close k) _ refl)
]
stop_step-lock who (waiting k) sv = elim (Bool-cases (has_ended k.id sv)) [
  | inl e ↦ rw e (moves (at_shutdown k) _ (at_close k) sv refl)
  | inr e ↦ rw e stays
]
stop_step-lock who (closing k) sv = leaves (at_close k) _ refl

apart : {p : Option StopPc} → Outside p → Inside p → ⊥
apart elsewhere i = elim i [ ]
apart at_lock i = elim i [ ]

-- `main`, the handler and the watcher, each behind a step of `stop`.
pub main_has-goes_on :
    {l : Option Owner} {m h w : Option StopPc} {pc : StopPc} {sv : Server}
    → Grip l m h w
    → Locked main_code l m (goes_on pc sv)
    → Grip sv.lock (some pc) h w
main_has-goes_on (nobody m h w) (enters sv e) = rw e (main_has at_test h w)
main_has-goes_on (nobody m h w) (moves i pc i' sv e) = absurd (apart m i)
main_has-goes_on (main_has m h w) (moves i pc i' sv e) = rw e (main_has i' h w)
main_has-goes_on (handler_has m h w) (moves i pc i' sv e) = absurd (apart m i)
main_has-goes_on (watcher_has m h w) (moves i pc i' sv e) = absurd (apart m i)

pub main_has-returns :
    {l : Option Owner} {m h w : Option StopPc} {sv : Server}
    → Grip l m h w
    → Locked main_code l m (returns sv)
    → Grip sv.lock none h w
main_has-returns (nobody m h w) (leaves i sv e) = absurd (apart m i)
main_has-returns (main_has m h w) (leaves i sv e) = rw e (nobody elsewhere h w)
main_has-returns (handler_has m h w) (leaves i sv e) = absurd (apart m i)
main_has-returns (watcher_has m h w) (leaves i sv e) = absurd (apart m i)

pub handler_has-goes_on :
    {l : Option Owner} {m h w : Option StopPc} {pc : StopPc} {sv : Server}
    → Grip l m h w
    → Locked handler_code l h (goes_on pc sv)
    → Grip sv.lock m (some pc) w
handler_has-goes_on (nobody m h w) (enters sv e) = rw e (handler_has m at_test w)
handler_has-goes_on (nobody m h w) (moves i pc i' sv e) = absurd (apart h i)
handler_has-goes_on (main_has m h w) (moves i pc i' sv e) = absurd (apart h i)
handler_has-goes_on (handler_has m h w) (moves i pc i' sv e) = rw e (handler_has m i' w)
handler_has-goes_on (watcher_has m h w) (moves i pc i' sv e) = absurd (apart h i)

pub handler_has-returns :
    {l : Option Owner} {m h w : Option StopPc} {sv : Server}
    → Grip l m h w
    → Locked handler_code l h (returns sv)
    → Grip sv.lock m none w
handler_has-returns (nobody m h w) (leaves i sv e) = absurd (apart h i)
handler_has-returns (main_has m h w) (leaves i sv e) = absurd (apart h i)
handler_has-returns (handler_has m h w) (leaves i sv e) = rw e (nobody m elsewhere w)
handler_has-returns (watcher_has m h w) (leaves i sv e) = absurd (apart h i)

pub watcher_has-goes_on :
    {l : Option Owner} {m h w : Option StopPc} {pc : StopPc} {sv : Server}
    → Grip l m h w
    → Locked watcher_code l w (goes_on pc sv)
    → Grip sv.lock m h (some pc)
watcher_has-goes_on (nobody m h w) (enters sv e) = rw e (watcher_has m h at_test)
watcher_has-goes_on (nobody m h w) (moves i pc i' sv e) = absurd (apart w i)
watcher_has-goes_on (main_has m h w) (moves i pc i' sv e) = absurd (apart w i)
watcher_has-goes_on (handler_has m h w) (moves i pc i' sv e) = absurd (apart w i)
watcher_has-goes_on (watcher_has m h w) (moves i pc i' sv e) = rw e (watcher_has m h i')

pub watcher_has-returns :
    {l : Option Owner} {m h w : Option StopPc} {sv : Server}
    → Grip l m h w
    → Locked watcher_code l w (returns sv)
    → Grip sv.lock m h none
watcher_has-returns (nobody m h w) (leaves i sv e) = absurd (apart w i)
watcher_has-returns (main_has m h w) (leaves i sv e) = absurd (apart w i)
watcher_has-returns (handler_has m h w) (leaves i sv e) = absurd (apart w i)
watcher_has-returns (watcher_has m h w) (leaves i sv e) = rw e (nobody m h elsewhere)
