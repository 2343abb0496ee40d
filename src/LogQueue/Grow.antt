-- ===== src/LogQueue/Grow.antt =====
-- `__log_queue_add_pool`: the records of a new pool join the free queue, and nothing else changes.
use iptracking.Prelude.{
  ℕ, zero, suc, ◌+◌, ◌≤◌, ◌<◌, ◌≡◌, refl, ◌⊎◌, true, List, [], ◌∷◌, map, arith, ◌∙◌, length, ◌≢◌,
}
use iptracking.LogData.{LogData}
use iptracking.LogQueue.{LogQueue, link_pool, zeroed}
use iptracking.LogQueue.Chain.{Ptr, null, update, has, Distinct, IsChain, IsChain-update}

-- The free queue after the loop: the last record of the pool comes first.
pub threaded : ℕ → Ptr → List Ptr → List Ptr
threaded zero p frees = frees
threaded (suc n) p frees = threaded n (suc p) (p ∷ frees)

pub length-threaded :
    (n : ℕ) (p : Ptr) (frees : List Ptr) → length (threaded n p frees) ≡ n + length frees
unfolding threaded
length-threaded zero p frees = omega arith
length-threaded (suc n) p frees = omega (arith, length-threaded n (suc p) (p ∷ frees))

-- The address `a` is outside the pool of `n` records at `p`.
abbrev pub Outside : Ptr → ℕ → Ptr → Type 0
Outside p n a = (a < p) ⊎ (p + n ≤ a)

pub has-threaded-Outside :
    (n : ℕ) (p : Ptr) (frees : List Ptr) (a : Ptr)
    → Outside p n a
    → has a (threaded n p frees) ≡ has a frees
unfolding threaded
has-threaded-Outside zero p frees a o = refl
has-threaded-Outside (suc n) p frees a o =
    ground (arith, has-threaded-Outside n (suc p) (p ∷ frees) a (omega arith))

pub Distinct-threaded :
    (n : ℕ) (p : Ptr) (frees : List Ptr)
    → Distinct frees
    → ((a : Ptr) → has a frees ≡ true → Outside p n a)
    → Distinct (threaded n p frees)
unfolding threaded
Distinct-threaded zero p frees d out = d
Distinct-threaded (suc n) p frees d out =
    Distinct-threaded n (suc p) (p ∷ frees) (ground (arith, out p), d) λ a m. ground (arith, out a)

pub link_pool-free :
    (n : ℕ) (p : Ptr) (q : LogQueue) (frees : List Ptr)
    → p ≢ null
    → IsChain q.link q.free_head frees
    → ((a : Ptr) → has a frees ≡ true → Outside p n a)
    → IsChain (link_pool n p q).link (link_pool n p q).free_head (threaded n p frees)
unfolding link_pool threaded
link_pool-free zero p q frees ne c out = c
link_pool-free (suc n) p q frees ne c out =
    link_pool-free n (suc p) _ (p ∷ frees) (omega arith)
      (
        refl,
        ne,
        rw head (IsChain-update q.link q.free_head p q.free_head frees (ground (arith, out p)) c),
      )
      λ a m. ground (arith, out a)
  where
    head : update q.link p q.free_head p ≡ q.free_head
    head = unfold update in ground arith

pub link_pool-link :
    (n : ℕ) (p : Ptr) (q : LogQueue) (a : Ptr) → Outside p n a → (link_pool n p q).link a ≡ q.link a
unfolding link_pool update
link_pool-link zero p q a o = refl
link_pool-link (suc n) p q a o =
    link_pool-link n (suc p) (record q { link = update q.link p q.free_head; free_head = p }) a
      (omega arith)
    ∙ ground arith

-- The loop touches the links and the head of the free queue alone.
pub record Untouched (q r : LogQueue) : Type 0 where
  pub params : r.params ≡ q.params
  pub n_rec_free : r.n_rec_free ≡ q.n_rec_free
  pub n_rec_used : r.n_rec_used ≡ q.n_rec_used
  pub used_head : r.used_head ≡ q.used_head
  pub used_tail : r.used_tail ≡ q.used_tail
  pub n_rec_pools : r.n_rec_pools ≡ q.n_rec_pools
  pub datum : r.datum ≡ q.datum

pub link_pool-Untouched : (n : ℕ) (p : Ptr) (q : LogQueue) → Untouched q (link_pool n p q)
unfolding link_pool
link_pool-Untouched zero p q = ground arith
link_pool-Untouched (suc n) p q =
    let rest =
      link_pool-Untouched n (suc p)
        (record q { link = update q.link p q.free_head; free_head = p }) in
    record {
      params = rest.params;
      n_rec_free = rest.n_rec_free;
      n_rec_used = rest.n_rec_used;
      used_head = rest.used_head;
      used_tail = rest.used_tail;
      n_rec_pools = rest.n_rec_pools;
      datum = rest.datum;
    }

-- What `calloc` promises: the records are outside both queues.
pub record Fresh (frees useds : List Ptr) (n : ℕ) (p : Ptr) : Type 0 where
  pub free_outside : (a : Ptr) → has a frees ≡ true → Outside p n a
  pub used_outside : (a : Ptr) → has a useds ≡ true → Outside p n a

pub map-zeroed :
    (blank : LogData) (p : Ptr) (n : ℕ) (datum : Ptr → LogData) (xs : List Ptr)
    → ((a : Ptr) → has a xs ≡ true → Outside p n a)
    → map (zeroed blank p n datum) xs ≡ map datum xs
unfolding zeroed
map-zeroed blank p n datum [] out = refl
map-zeroed blank p n datum (x ∷ xs) out =
    ground (arith, out x, map-zeroed blank p n datum xs (λ a m. out a (ground arith)))
