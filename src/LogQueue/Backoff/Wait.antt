-- ===== src/LogQueue/Backoff/Wait.antt =====
-- `log_queue_push` as a whole: the waits between the rounds, and the other threads during them.
use iptracking.Prelude.{
  ◌<◌, ◌≡◌, refl, ◌≢◌, inl, inr, true, false, List, [], ◌∷◌, ◌++◌, arith, sym, ap, subst, ◌∙◌,
  length,
}
use iptracking.LogData.{LogData}
use iptracking.LogQueue.{LogQueue, Memory, Pushing, crashed, must_wait, refused, pushed, try_push}
use iptracking.LogQueue.Chain.{null}
use iptracking.LogQueue.Capacity.{capacity, IsSound}
use iptracking.LogQueue.View.{Represents, IsFresh, PushSpec}
use iptracking.LogQueue.Push.{try_push-PushSpec}
use iptracking.LogQueue.Limits.{try_push_waits_iff}
use iptracking.LogQueue.Backoff.{
  Waits, Round, PushEnd, faulted, done, sleeping, push_loop, push, first_wait, next_wait,
}

-- The other threads leave a queue behind them, under the same parameters.
abbrev pub KeepsQueue : (LogQueue → LogQueue) → LogQueue → Type 0
KeepsQueue others q =
    (ds : List LogData)
    → Represents q ds
    → (es : List LogData) × Represents (others q) es × ((others q).params ≡ q.params)

-- So do those of every round, and the allocator's memory is new in each.
abbrev pub AreFair : List Round → LogQueue → Type 0
AreFair [] q = Unit {0}
AreFair (r ∷ rs) q = IsFresh q r.memory × KeepsQueue r.others q × AreFair rs (r.others q)

-- The event stands at the end, or the queue is one that the other threads left.
abbrev pub EndSpec : LogData → PushEnd → Type 0
EndSpec d faulted = ⊥
EndSpec d (done true q) = (ds : List LogData) × Represents q (ds ++ d ∷ [])
EndSpec d (done false q) = (ds : List LogData) × Represents q ds
EndSpec d (sleeping q w) = (ds : List LogData) × Represents q ds

module _ (blank d : LogData) where
  push_now :
      (r : Round) (rs : List Round) (w : Waits) (q q' : LogQueue)
      → try_push blank q d r.memory ≡ pushed q'
      → push_loop blank d (r ∷ rs) w q ≡ done true q'
  unfolding push_loop
  push_now r rs w q q' e = rw (e, push_loop)

  push_later :
      (r : Round) (rs : List Round) (w : Waits) (q : LogQueue)
      → try_push blank q d r.memory ≡ must_wait
      → push_loop blank d (r ∷ rs) w q ≡ push_loop blank d rs (next_wait q.params w) (r.others q)
  unfolding push_loop
  push_later r rs w q e = rw (e, push_loop)

  push_refused :
      (r : Round) (rs : List Round) (w : Waits) (q : LogQueue)
      → try_push blank q d r.memory ≡ refused
      → push_loop blank d (r ∷ rs) w q ≡ done false q
  unfolding push_loop
  push_refused r rs w q e = rw (e, push_loop)

  push_step :
      (r : Round) (rs : List Round) (w : Waits) (q : LogQueue) (ds : List LogData) (p : Pushing)
      → try_push blank q d r.memory ≡ p
      → PushSpec q ds d r.memory p
      → Represents q ds
      → EndSpec d (push_loop blank d rs (next_wait q.params w) (r.others q))
      → EndSpec d (push_loop blank d (r ∷ rs) w q)
  push_step r rs w q ds crashed e spec rep again = absurd spec
  push_step r rs w q ds must_wait e spec rep again =
      subst (EndSpec d) (sym (push_later r rs w q e)) again
  push_step r rs w q ds refused e spec rep again =
      subst (EndSpec d) (sym (push_refused r rs w q e)) (ds, rep)
  push_step r rs w q ds (pushed q') e spec rep again =
      subst (EndSpec d) (sym (push_now r rs w q q' e)) (ds, spec.0)

  -- On a queue with sound parameters, where the other threads leave a queue behind them in each wait
  -- and the allocator's memory is in no queue: a push never crashes, and if it says that it has
  -- taken the event then the event stands at the end of the queue; otherwise a queue is left.
  pub push_loop-EndSpec :
      (rs : List Round) (w : Waits) (q : LogQueue) (ds : List LogData)
      → AreFair rs q
      → Represents q ds
      → IsSound q.params
      → EndSpec d (push_loop blank d rs w q)
  push_loop-EndSpec [] w q ds fair rep s = unfold push_loop in (ds, rep)
  push_loop-EndSpec (r ∷ rs) w q ds fair rep s =
      let (es, rep', same) = fair.1 ds rep in
      push_step r rs w q ds (try_push blank q d r.memory) refl
        (try_push-PushSpec blank q d r.memory ds rep s fair.0) rep
        (push_loop-EndSpec rs (next_wait q.params w) (r.others q) es fair.2 rep'
          (subst IsSound (sym same) s))

  pub push-EndSpec :
      (rs : List Round) (q : LogQueue) (ds : List LogData)
      → AreFair rs q
      → Represents q ds
      → IsSound q.params
      → EndSpec d (push blank d rs q)
  unfolding push
  push-EndSpec rs q ds fair rep s = push_loop-EndSpec rs (first_wait q.params) q ds fair rep s

  Pushed-of-room :
      (q : LogQueue) (ds : List LogData) (m : Memory) (p : Pushing)
      → PushSpec q ds d m p
      → p ≢ must_wait
      → m.pool ≢ null
      → m.grown ≡ true
      → (q' : LogQueue) × (p ≡ pushed q') × Represents q' (ds ++ d ∷ [])
  Pushed-of-room q ds m crashed spec ne memory grown = absurd spec
  Pushed-of-room q ds m must_wait spec ne memory grown = absurd (ne refl)
  Pushed-of-room q ds m refused (inl e) ne memory grown = absurd (memory e)
  Pushed-of-room q ds m refused (inr e) ne memory grown = cc
  Pushed-of-room q ds m (pushed q') spec ne memory grown = (q', refl, spec.0)

  -- A push onto a full queue goes to sleep, and takes the event on waking if the other threads have made
  -- room and memory is to be had.
  pub push_after_wait :
      (r r' : Round) (w : Waits) (q : LogQueue) (ds es : List LogData)
      → Represents q ds
      → IsSound q.params
      → length ds ≡ capacity q.params
      → IsFresh q r.memory
      → Represents (r.others q) es
      → (r.others q).params ≡ q.params
      → length es < capacity q.params
      → IsFresh (r.others q) r'.memory
      → r'.memory.pool ≢ null
      → r'.memory.grown ≡ true
      → (q' : LogQueue) × (push_loop blank d (r ∷ r' ∷ []) w q ≡ done true q')
        × Represents q' (es ++ d ∷ [])
  push_after_wait r r' w q ds es rep s full fresh rep' same room fresh' memory grown =
      let s' = subst IsSound (sym same) s in
      let waits = (try_push_waits_iff blank q d r.memory ds rep s fresh).1 full in
      let not_full : try_push blank (r.others q) d r'.memory ≢ must_wait = λ e.
        let filled =
          (try_push_waits_iff blank (r.others q) d r'.memory es rep' s' fresh').0 e
          ∙ ap capacity same in
        absurd (omega arith) in
      let (q', took, rep'') =
        Pushed-of-room (r.others q) es r'.memory (try_push blank (r.others q) d r'.memory)
          (try_push-PushSpec blank (r.others q) d r'.memory es rep' s' fresh') not_full memory
          grown in
      (
        q',
        push_later r (r' ∷ []) w q waits
            ∙ push_now r' [] (next_wait q.params w) (r.others q) q' took,
        rep'',
      )

-- A round of a push with nothing behind it.
abbrev pub one_round : Memory → List Round
one_round m = record { memory = m; others = λ q. q } ∷ []

abbrev end_of : LogQueue → Waits → Pushing → PushEnd
end_of q w crashed = faulted
end_of q w must_wait = sleeping q w
end_of q w refused = done false q
end_of q w (pushed q') = done true q'

end_of-pushed :
    (q q' : LogQueue) (w : Waits) (x : Pushing) → end_of q w x ≡ done true q' → x ≡ pushed q'
end_of-pushed q q' w crashed e = cc
end_of-pushed q q' w must_wait e = cc
end_of-pushed q q' w refused e = cc
end_of-pushed q q' w (pushed t) e = cc

end_of-same : (q q' : LogQueue) (w : Waits) (x : Pushing) → end_of q w x ≡ done false q' → q ≡ q'
end_of-same q q' w crashed e = cc
end_of-same q q' w must_wait e = cc
end_of-same q q' w refused e = cc
end_of-same q q' w (pushed t) e = cc

one_round-end :
    (blank d : LogData) (m : Memory) (q : LogQueue)
    → push blank d (one_round m) q
      ≡ end_of q (next_wait q.params (first_wait q.params)) (try_push blank q d m)
unfolding push push_loop
one_round-end blank d m q = go (try_push blank q d m) refl
  where
    go :
        (x : Pushing)
        → try_push blank q d m ≡ x
        → push blank d (one_round m) q ≡ end_of q (next_wait q.params (first_wait q.params)) x
    go crashed e = rw (push, push_loop, e) refl
    go must_wait e = rw (push, push_loop, e) refl
    go refused e = rw (push, push_loop, e) refl
    go (pushed t) e = rw (push, push_loop, e) refl

-- Where one round ends a push with success, it has stored the event; where it ends it without, the queue is
-- as it was.
pub one_round-pushed :
    (blank d : LogData) (m : Memory) (q q' : LogQueue)
    → push blank d (one_round m) q ≡ done true q'
    → try_push blank q d m ≡ pushed q'
one_round-pushed blank d m q q' e =
    end_of-pushed q q' (next_wait q.params (first_wait q.params)) (try_push blank q d m)
      (sym (one_round-end blank d m q) ∙ e)

pub one_round-same :
    (blank d : LogData) (m : Memory) (q q' : LogQueue)
    → push blank d (one_round m) q ≡ done false q'
    → q ≡ q'
one_round-same blank d m q q' e =
    end_of-same q q' (next_wait q.params (first_wait q.params)) (try_push blank q d m)
      (sym (one_round-end blank d m q) ∙ e)

-- A round that stores the event ends the push with success.
pub one_round-done :
    (blank d : LogData) (m : Memory) (q q' : LogQueue)
    → try_push blank q d m ≡ pushed q'
    → push blank d (one_round m) q ≡ done true q'
one_round-done blank d m q q' e =
    one_round-end blank d m q ∙ ap (end_of q (next_wait q.params (first_wait q.params))) e
