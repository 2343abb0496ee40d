-- ===== src/LogQueue/Backoff.antt =====
-- The loop of `log_queue_push`: rounds under the lock, and the waits between them.
pub mod Wait
use iptracking.Prelude.{
  ℕ, zero, suc, ◌-◌, ◌≤◌, ◌<◌, ◌≡◌, refl, ◌≢◌, Bool, true, false, List, [], ◌∷◌, ◌++◌,
  if◌then◌else◌,
}
use iptracking.Prelude.Int.{ℤ, pos, ◌+ℤ◌, ◌≤ℤ◌, ltb_ℤ}
use iptracking.LogData.{LogData}
use iptracking.LogQueue.{
  LogQueue, Params, Memory, Pushing, crashed, must_wait, refused, pushed, try_push,
}

-- The locals `wait_sec` and `n_waits`.
pub record Waits : Type 0 where
  pub wait_sec : ℤ
  pub n_waits : ℤ

pub first_wait : Params → Waits
first_wait params = record { wait_sec = params.wait_min; n_waits = pos 1 }

-- The change of the locals after a sleep. An `int` that overflows is not modelled.
pub next_wait : Params → Waits → Waits
next_wait params w =
    if ltb_ℤ w.n_waits params.grow_threshold
    then record w { n_waits = w.n_waits +ℤ pos 1 }
    else record {
      wait_sec =
          (let longer = w.wait_sec +ℤ params.wait_delta in
            if ltb_ℤ params.wait_max longer then params.wait_max else longer);
      n_waits = pos 0;
    }

pub waits_after : Params → ℕ → Waits
waits_after params zero = first_wait params
waits_after params (suc k) = next_wait params (waits_after params k)

-- What a round meets: the allocator's answers, and what the other threads do during its sleep.
pub record Round : Type 0 where
  pub memory : Memory
  pub others : LogQueue → LogQueue

pub data PushEnd : Type 0 where
  faulted : PushEnd
  done : Bool → LogQueue → PushEnd
  sleeping : LogQueue → Waits → PushEnd

-- `log_queue_push`, over the rounds that it is given.
pub push_loop : LogData → LogData → List Round → Waits → LogQueue → PushEnd
push_loop blank d [] w q = sleeping q w
push_loop blank d (r ∷ rs) w q =
    let again = push_loop blank d rs (next_wait q.params w) (r.others q) in
    elim (try_push blank q d r.memory) [
      | crashed ↦ faulted
      | must_wait ↦ again
      | refused ↦ done false q
      | pushed q' ↦ done true q'
    ]

pub push : LogData → LogData → List Round → LogQueue → PushEnd
unfolding push_loop first_wait
push blank d rounds q = push_loop blank d rounds (first_wait q.params) q

-- The parameters as `int`s that are not negative, with the longest wait no shorter than the first.
pub record Are (params : Params) (a b d t : ℕ) : Type 0 where
  pub shortest : params.wait_min ≡ pos a
  pub longest : params.wait_max ≡ pos b
  pub delta : params.wait_delta ≡ pos d
  pub threshold : params.grow_threshold ≡ pos t
  pub ordered : a ≤ b
  pub counted : 0 < t
