-- ===== src/LogQueue/View.antt =====
-- The queue as its clients see it: a first-in first-out list of events.
use iptracking.Prelude.{
  ◌∙◌, sym, ap, ℕ, ◌≡◌, refl, ◌⊎◌, false, some, List, [], ◌∷◌, ◌++◌, map, arith, length, ◌≢◌,
}
use iptracking.LogData.{LogData}
use iptracking.LogQueue.{
  LogQueue, Params, Memory, Pushing, crashed, must_wait, refused, pushed, grow_by, create,
}
use iptracking.LogQueue.Chain.{Ptr, null, update, has}
use iptracking.LogQueue.Invariant.{Holds}
use iptracking.LogQueue.Capacity.{capacity, IsWithin}
use iptracking.LogQueue.Grow.{Fresh}

-- The queue `q` holds the events `ds`, oldest first.
abbrev pub Represents : LogQueue → List LogData → Type 0
Represents q ds =
    (frees : List Ptr) × (useds : List Ptr) × Holds q frees useds
    × IsWithin q frees useds
    × (map q.datum useds ≡ ds)

-- What `calloc` promises of a non-NULL answer: memory that is in no queue.
abbrev pub IsFresh : LogQueue → Memory → Type 0
IsFresh q m =
    (n : ℕ) (frees useds : List Ptr)
    → grow_by q ≡ some n
    → Holds q frees useds
    → m.pool ≢ null
    → Fresh frees useds n m.pool

pub Holds-datum :
    {q : LogQueue} {frees useds : List Ptr} (g : Ptr → LogData)
    → Holds q frees useds
    → Holds (record q { datum = g }) frees useds
Holds-datum g h = record {
  free = h.free;
  used = h.used;
  tail = h.tail;
  distinct_free = h.distinct_free;
  distinct_used = h.distinct_used;
  apart = h.apart;
  n_free = h.n_free;
  n_used = h.n_used;
  within = h.within;
}

pub map-update :
    (g : Ptr → LogData) (f : Ptr) (d : LogData) (xs : List Ptr)
    → has f xs ≡ false
    → map (update g f d) (xs ++ f ∷ []) ≡ map g xs ++ d ∷ []
unfolding update
map-update g f d [] out = ground arith
map-update g f d (x ∷ xs) out = ground (arith, map-update g f d xs)

pub length-map-datum : (g : Ptr → LogData) (xs : List Ptr) → length (map g xs) ≡ length xs
length-map-datum g [] = refl
length-map-datum g (x ∷ xs) = omega (arith, length-map-datum g xs)

-- As many records are used as the queue holds events.
pub Represents-length :
    (q : LogQueue) (ds : List LogData) → Represents q ds → q.n_rec_used ≡ length ds
Represents-length q ds (frees, useds, h, w, e) =
    h.n_used ∙ sym (length-map-datum q.datum useds) ∙ ap length e

-- What one round of `log_queue_push` may come to.
abbrev pub PushSpec : LogQueue → List LogData → LogData → Memory → Pushing → Type 0
PushSpec q ds d m crashed = ⊥
PushSpec q ds d m must_wait = length ds ≡ capacity q.params
PushSpec q ds d m refused = (m.pool ≡ null) ⊎ (m.grown ≡ false)
PushSpec q ds d m (pushed q') = Represents q' (ds ++ d ∷ []) × (q'.params ≡ q.params)

-- An empty queue, from `log_queue_create`.
pub create-Represents : (blank : LogData) (params : Params) → Represents (create blank params) []
unfolding create
create-Represents blank params = (
  [],
  [],
  holds,
  record { records = ground arith; pools = omega arith; no_pool = λ _. refl },
  refl,
)
  where
    holds : Holds (create blank params) [] []
    holds = record {
      free = refl;
      used = refl;
      tail = refl;
      distinct_free = tt;
      distinct_used = tt;
      apart = λ a m. refl;
      n_free = refl;
      n_used = refl;
      within = omega arith;
    }
