-- ===== src/SharedMemory/Release.antt =====
-- What creating, connecting to and destroying a segment leaves held
-- (include/oneplog/internal/shared_memory.hpp).
use oneplog.Prelude.{
  ℕ, ◌+◌, ◌<◌, ◌≡◌, ◌≢◌, refl, Bool, true, false, not, ◌&&◌, ◌==◌, if◌then◌else◌, Option, none,
  some, List, [], ◌∷◌, arith,
}
use oneplog.SharedMemory.Layout.{Sizes, required_size, ring_required_size}
use oneplog.SharedMemory.Segment.{
  Answers, Event, opens, closes, maps, unmaps, links, unlinks, Handle, Segment, destroy, create,
  create_mapped, connect, connect_mapped, ring_connect, metadata_is_valid,
}

-- The descriptor and the memory that a process holds of a segment, and whether its name stands for it.
pub record Held : Type 0 where
  pub fd : Option ℕ
  pub memory : Option ℕ
  pub linked : Bool

abbrev pub nothing : Held
nothing = record { fd = none; memory = none; linked = false }

abbrev is_some : Option ℕ → ℕ → Bool
is_some none n = false
is_some (some m) n = m == n

abbrev is_none : Option ℕ → Bool
is_none none = true
is_none (some m) = false

-- One event; none if it gives back what is not held, or takes what is.
unfoldable pub replay_one : Event → Held → Option Held
replay_one (opens n) h = if is_none h.fd then some (record h { fd = some n }) else none
replay_one (closes n) h = if is_some h.fd n then some (record h { fd = none }) else none
replay_one (maps n) h = if is_none h.memory then some (record h { memory = some n }) else none
replay_one (unmaps n) h = if is_some h.memory n then some (record h { memory = none }) else none
replay_one links h = if h.linked then none else some (record h { linked = true })
replay_one unlinks h = if h.linked then some (record h { linked = false }) else none

unfoldable pub replay : List Event → Held → Option Held
replay [] h = some h
replay (e ∷ es) h = elim (replay_one e h) [ none ↦ none | some h' ↦ replay es h' ]

-- What a handle stands for.
abbrev pub held_by : Option Handle → Held
held_by none = nothing
held_by (some h) = record { fd = h.fd; memory = some h.memory; linked = h.is_owner }

-- What is documented of `mmap` without an address wanted: it does not give the null pointer, and fails
-- for no bytes.
abbrev pub MapsWell : Answers → ℕ → Type 0
MapsWell a total = (m : ℕ) → a.mapped ≡ some m → (m ≢ 0) × (0 < total)

-- What destroying a handle of a segment gives back.
destroy-replay :
    (h : Handle)
    → h.memory ≢ 0
    → 0 < h.size
    → h.named ≡ true
    → replay (destroy h) (held_by (some h)) ≡ some nothing
unfolding replay replay_one destroy
destroy-replay h nz full named = ground arith

module _ (z : Sizes) (a : Answers) where
  create-replay :
      (no_name : Bool) (capacity : ℕ)
      → MapsWell a (required_size z capacity)
      → (mapped : Option ℕ) → a.mapped ≡ mapped
      → replay (create z a no_name capacity).1 nothing
        ≡ some (held_by (create z a no_name capacity).0)
  unfolding replay replay_one create create_mapped destroy
  create-replay no_name capacity doc none e = ground (arith, e)
  create-replay no_name capacity doc (some m) e = ground (arith, e, doc m e)

  create-destroy :
      (no_name : Bool) (capacity : ℕ)
      → MapsWell a (required_size z capacity)
      → (mapped : Option ℕ) → a.mapped ≡ mapped
      → (h : Handle) → (create z a no_name capacity).0 ≡ some h
      → (h.memory ≢ 0) × (0 < h.size) × (h.named ≡ true)
  unfolding create create_mapped
  create-destroy no_name capacity doc none e h f = ground (arith, e, f)
  create-destroy no_name capacity doc (some m) e h f = ground (arith, e, f, doc m e)

  -- Whatever the system answers, `Create` leaves held what its handle stands for, and nothing if it
  -- gives none, having given back once what it took; and destroying its handle gives back the rest
  -- and the name. `mmap` must fail for no bytes and not give the null pointer.
  pub create-releases :
      (no_name : Bool) (capacity : ℕ)
      → MapsWell a (required_size z capacity)
      → (replay (create z a no_name capacity).1 nothing
          ≡ some (held_by (create z a no_name capacity).0))
        × ((h : Handle)
            → (create z a no_name capacity).0 ≡ some h
            → replay (destroy h) (held_by (some h)) ≡ some nothing)
  create-releases no_name capacity doc = (
    create-replay no_name capacity doc a.mapped refl,
    λ h f.
        let (nz, full, named) = create-destroy no_name capacity doc a.mapped refl h f in
        destroy-replay h nz full named,
  )

  -- `Connect` comes as far as the ring of a segment with valid metadata, and refuses it.
  unfoldable pub refuses_ring : Bool → Segment → Bool
  refuses_ring no_name s = elim a.opened [
    | none ↦ false
    | some fd ↦ elim a.stat_size [
      | none ↦ false
      | some total ↦ elim a.mapped [
        | none ↦ false
        | some memory ↦
            not no_name
            && (metadata_is_valid s.metadata
                && not (
                    ring_connect z (memory + s.metadata.ring_at)
                      (ring_required_size z s.metadata.ring_capacity) s))
      ]
    ]
  ]

  connect-replay :
      (no_name : Bool) (s : Segment)
      → ((total : ℕ) → a.stat_size ≡ some total → MapsWell a total)
      → (size mapped : Option ℕ) → a.stat_size ≡ size
      → a.mapped ≡ mapped
      → replay (connect z a no_name s).1 nothing
        ≡ (if refuses_ring no_name s then none else some (held_by (connect z a no_name s).0))
  unfolding replay replay_one connect connect_mapped destroy refuses_ring
  connect-replay no_name s doc none mapped t e = ground (arith, t, e)
  connect-replay no_name s doc (some total) none t e = ground (arith, t, e)
  connect-replay no_name s doc (some total) (some m) t e = ground (arith, t, e, doc total t m e)

  -- Whatever the system answers, `Connect` leaves held what its handle stands for, and nothing if it
  -- gives none, having given back once what it took, with one exception: where the metadata is valid
  -- and the ring is refused, it gives something back that it does not hold any more. `mmap` must fail
  -- for no bytes and not give the null pointer.
  pub connect-releases :
      (no_name : Bool) (s : Segment)
      → ((total : ℕ) → a.stat_size ≡ some total → MapsWell a total)
      → replay (connect z a no_name s).1 nothing
        ≡ (if refuses_ring no_name s then none else some (held_by (connect z a no_name s).0))
  connect-releases no_name s doc = connect-replay no_name s doc a.stat_size a.mapped refl refl
