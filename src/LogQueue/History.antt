-- ===== src/LogQueue/History.antt =====
-- Every interleaving of the threads of pamd on the queue. Each operation holds the lock from end to
-- end but for its waits, so a history is a sequence of whole steps.
use iptracking.Prelude.{
  ◌≡◌, refl, ◌≢◌, none, some, List, [], ◌∷◌, ◌++◌, sym, ap, subst, ◌∙◌, append_assoc,
}
use iptracking.LogData.{LogData}
use iptracking.LogQueue.{LogQueue, Params, Memory, crashed, pushed, create, try_push, take_head}
use iptracking.LogQueue.Capacity.{IsSound}
use iptracking.LogQueue.View.{Represents, IsFresh, PushSpec, create-Represents}
use iptracking.LogQueue.Push.{try_push-PushSpec}
use iptracking.LogQueue.Pop.{take_head-cons, take_head-nil, take_head_total}

-- The queue, the events that `log_queue_push` has taken, and those that `log_queue_pop` has given, in
-- order.
pub record History : Type 0 where
  pub queue : LogQueue
  pub taken_in : List LogData
  pub given_out : List LogData

abbrev pub start : LogData → Params → History
start blank params = record { queue = create blank params; taken_in = []; given_out = [] }

-- A round of a push that takes the event, one that does not, a pop, and a pop of the empty queue.
pub data Step (blank : LogData) (h : History) : History → Type 0 where
  pushes :
      (d : LogData) (m : Memory) (q' : LogQueue)
      → IsFresh h.queue m
      → try_push blank h.queue d m ≡ pushed q'
      → Step blank h (record h { queue = q'; taken_in = h.taken_in ++ d ∷ [] })
  declines : Step blank h h
  pops :
      (d : LogData) (q' : LogQueue)
      → take_head h.queue ≡ some (some d, q')
      → Step blank h (record h { queue = q'; given_out = h.given_out ++ d ∷ [] })
  pops_none :
      (q' : LogQueue) → take_head h.queue ≡ some (none, q') → Step blank h (record h { queue = q' })

pub data Reach (blank : LogData) (s : History) : History → Type 0 where
  here : Reach blank s s
  next : {h k : History} → Reach blank s h → Step blank h k → Reach blank s k

-- What has come in is what has gone out and, behind it, what the queue holds.
abbrev pub IsFifo : Params → History → Type 0
IsFifo params h =
    (ds : List LogData) × Represents h.queue ds
    × (h.queue.params ≡ params)
    × (h.taken_in ≡ h.given_out ++ ds)

module _ (blank : LogData) (params : Params) (s : IsSound params) where
  Step-IsFifo : {h k : History} → Step blank h k → IsFifo params h → IsFifo params k
  Step-IsFifo {h} (pushes d m q' fresh e) (ds, rep, same, fifo) =
      let spec : PushSpec h.queue ds d m (pushed q') =
        subst (PushSpec h.queue ds d m) e
          (try_push-PushSpec blank h.queue d m ds rep (subst IsSound (sym same) s) fresh) in
      (
        ds ++ d ∷ [],
        spec.0,
        spec.1 ∙ same,
        ap (λ xs. xs ++ d ∷ []) fifo ∙ append_assoc h.given_out ds (d ∷ []),
      )
  Step-IsFifo declines i = i
  Step-IsFifo {h} (pops d q' e) ([], rep, same, fifo) =
      let none_left = take_head-nil h.queue rep in cc
  Step-IsFifo {h} (pops d q' e) (x ∷ ds, rep, same, fifo) =
      let (r, took, rest, still) = take_head-cons h.queue x ds rep in
      let same_event : x ≡ d = cc in
      let same_queue : r ≡ q' = cc in
      (
        ds,
        subst (λ q. Represents q ds) same_queue rest,
        ap (λ (q : LogQueue). q.params) (sym same_queue) ∙ still ∙ same,
        fifo
            ∙ ap (λ y. h.given_out ++ y ∷ ds) same_event
            ∙ sym (append_assoc h.given_out (d ∷ []) ds),
      )
  Step-IsFifo {h} (pops_none q' e) ([], rep, same, fifo) =
      let kept = take_head-nil h.queue rep in
      let same_queue : h.queue ≡ q' = cc in
      (
        [],
        subst (λ q. Represents q []) same_queue rep,
        ap (λ (q : LogQueue). q.params) (sym same_queue) ∙ same,
        fifo,
      )
  Step-IsFifo {h} (pops_none q' e) (x ∷ ds, rep, same, fifo) =
      let (r, took, rest, still) = take_head-cons h.queue x ds rep in cc

  -- In every history from `log_queue_create` with sound parameters, where the allocator's memory is
  -- in no queue: the events that were taken in are those given out followed by those that the queue
  -- holds, so none is lost, doubled or overtaken.
  pub Reach-IsFifo : {h : History} → Reach blank (start blank params) h → IsFifo params h
  Reach-IsFifo here = ([], create-Represents blank params, unfold create in refl, refl)
  Reach-IsFifo (next r st) = Step-IsFifo st (Reach-IsFifo r)

  -- In every history from `log_queue_create` with sound parameters, where the allocator's memory is
  -- in no queue: a round of a push does not read through NULL, and a pop does not run out of fuel in
  -- its search for a record.
  pub Reach-safe :
      {h : History}
      → Reach blank (start blank params) h
      → (d : LogData) (m : Memory) → IsFresh h.queue m
      → (try_push blank h.queue d m ≢ crashed) × (take_head h.queue ≢ none)
  Reach-safe {h} r d m fresh =
      let (ds, rep, same, fifo) = Reach-IsFifo r in
      let spec = try_push-PushSpec blank h.queue d m ds rep (subst IsSound (sym same) s) fresh in
      (λ e. subst (PushSpec h.queue ds d m) e spec, take_head_total h.queue ds rep)
