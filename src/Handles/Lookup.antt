-- ===== src/Handles/Lookup.antt =====
-- What `register_ptr` and `unregister_handle` of src/core/handles.hpp change for `lookup`.
use astral_runtime.Base.{
  ℕ, ◌+◌, ◌-◌, ◌%◌, ◌<◌, true, false, some, none, ◌≡◌, ◌≢◌, ◌⊎◌, refl, ap, ◌∙◌, sym, subst, ◌||◌,
  arith, inl, inr, ◌==◌, if◌then◌else◌, Bool-cases, Option-cases, u64_mod,
}
use astral_runtime.Handles.{
  Slot, HandleTable, max_handles, make_handle, handle_kind, handle_index, handle_generation, put,
  find_free, next_generation, fill, register_ptr, unregister_handle, lookup,
}
use astral_runtime.Handles.Kind.{HandleKind}
use astral_runtime.Handles.Fields.{make_handle-eq}
use astral_runtime.Handles.Slots.{
  IsValid, next_generation_bounds, fill-IsValid, find_free_sound, find_free-none, lookup-probe,
  put-same, put-other, probe_made, probe_free, made_elsewhere, lookup-other_kind, probe_one,
}

-- The handle of the slot that the search gives.
new_handle : HandleTable → HandleKind → ℕ → ℕ
new_handle t k i = make_handle k i (next_generation (t.slots i).generation)

register_ptr_cases :
    (t : HandleTable) (k : HandleKind) (p : ℕ)
    → (((p == 0 || k == 0) ≡ true) × (register_ptr t k p ≡ (0, t)))
      ⊎ (((p == 0 || k == 0) ≡ false)
          × (((find_free t.slots t.next_index max_handles 0 ≡ none) × (register_ptr t k p ≡ (0, t)))
              ⊎ ((i : ℕ) × (find_free t.slots t.next_index max_handles 0 ≡ some i)
                  × (register_ptr t k p ≡ (new_handle t k i, fill t i k p)))))
unfolding register_ptr new_handle
register_ptr_cases t k p = elim (Bool-cases (p == 0 || k == 0)) [
  | inl bad ↦ inl (bad, rw (bad) refl)
  | inr good ↦ inr (
    good,
    elim (Option-cases (find_free t.slots t.next_index max_handles 0)) [
      | inl e ↦ inl (e, rw (good, e) refl)
      | inr (i, e) ↦ inr (i, e, rw (good, e) refl)
    ],
  )
]

pub register_ptr-IsValid :
    (t : HandleTable) (k : HandleKind) (p : ℕ) → IsValid t → IsValid (register_ptr t k p).1
register_ptr-IsValid t k p v = elim (register_ptr_cases t k p) [
  | inl (_, e) ↦ rw (e) v
  | inr (_, inl (_, e)) ↦ rw (e) v
  | inr (_, inr (i, _, e)) ↦ rw (e) (fill-IsValid t i k p v)
]

fill-lookup :
    (t : HandleTable) (i : ℕ) (k : HandleKind) (p : ℕ)
    → i < max_handles
    → (t.slots i).ptr ≡ 0
    → 0 < k
    → k < 256
    → (h : ℕ) (e : HandleKind) → h < u64_mod
    → lookup (fill t i k p) h e
      ≡ (if h == new_handle t k i then (if e == k then p else 0) else lookup t h e)
unfolding fill new_handle
fill-lookup t i k p hi free k0 k256 h e small =
    rw (lookup-probe (fill t i k p) h e, lookup-probe t h e)
      (elim (Bool-cases (handle_index h == i)) [
        | inl same ↦
            let at : handle_index h ≡ i = ground (arith, same) in
            rw
              (
                put-same t.slots i
                    (record {
                      ptr = p;
                      generation = next_generation (t.slots i).generation;
                      kind = k;
                    })
                    (handle_index h) at,
                at,
                probe_free (t.slots i) free h e,
              )
              (probe_made i k (next_generation (t.slots i).generation) p hi k0 k256
                (next_generation_bounds (t.slots i).generation).0
                (next_generation_bounds (t.slots i).generation).1 h e small at)
        | inr other ↦
            let away : handle_index h ≢ i = ground (arith, other) in
            rw
              (put-other t.slots i
                (record { ptr = p; generation = next_generation (t.slots i).generation; kind = k })
                (handle_index h) away)
              (ground (
                arith,
                made_elsewhere t i k (next_generation (t.slots i).generation) h k256 hi
                    (next_generation_bounds (t.slots i).generation).1 away,
              ))
      ])

new_handle_positive :
    (t : HandleTable) (k : HandleKind) (i : ℕ)
    → 0 < k
    → k < 256
    → i < max_handles
    → 0 < new_handle t k i
unfolding new_handle
new_handle_positive t k i k0 k256 hi = omega (
  arith,
  make_handle-eq k i (next_generation (t.slots i).generation) k256 (omega (arith, hi))
      (next_generation_bounds (t.slots i).generation).1,
)

-- In a valid table, registering a pointer that is not null under a kind between 1 and 255 either
-- returns a handle that is not 0 and changes what a lookup of that handle alone finds: under its kind
-- the pointer, under another nothing. Or it returns 0, leaves the table, and every slot is taken.
pub register_ptr-lookup :
    (t : HandleTable) (k : HandleKind) (p : ℕ)
    → IsValid t
    → 0 < k
    → k < 256
    → 0 < p
    → ((0 < (register_ptr t k p).0)
        × ((h : ℕ) (e : HandleKind)
            → h < u64_mod
            → lookup (register_ptr t k p).1 h e
              ≡ (if h == (register_ptr t k p).0 then (if e == k then p else 0) else lookup t h e)))
      ⊎ ((register_ptr t k p ≡ (0, t)) × ((i : ℕ) → i < max_handles → (t.slots i).ptr ≢ 0))
register_ptr-lookup t k p v k0 k256 p0 = elim (register_ptr_cases t k p) [
  | inl (bad, _) ↦ absurd (ground (arith, bad))
  | inr (_, inl (full, e)) ↦ inr (
    e,
    λ i hi.
        let j = (i + max_handles - t.next_index) % max_handles in
        let here : (t.next_index + j) % max_handles ≡ i = omega (arith, hi, v.next) in
        subst (λ a. (t.slots a).ptr ≢ 0) here
          (find_free-none t.slots t.next_index max_handles 0 j full (omega arith) (omega arith)),
  )
  | inr (_, inr (i, found, e)) ↦
      let sound = find_free_sound t.slots t.next_index max_handles 0 i found in
      inl (
        rw (e) (new_handle_positive t k i k0 k256 sound.1),
        λ h e' small. rw (e) (fill-lookup t i k p sound.1 sound.0 k0 k256 h e' small),
      )
]

-- A release does something when the lookup finds something, and what it does.
release_none :
    (t : HandleTable) (h : ℕ) (k : HandleKind)
    → handle_kind h ≡ k
    → lookup t h k ≡ 0
    → unregister_handle t h k ≡ t
unfolding unregister_handle lookup
release_none t h k same none_there = ground (arith, same, none_there)

released : HandleTable → ℕ → Slot
released t i = record { ptr = 0; generation = (t.slots i).generation; kind = 0 }

release_some :
    (t : HandleTable) (h : ℕ) (k : HandleKind)
    → lookup t h k ≢ 0
    → (unregister_handle t h k
        ≡ record t { slots = put t.slots (handle_index h) (released t (handle_index h)) })
      × (handle_kind h ≡ k)
      × ((t.slots (handle_index h)).kind ≡ k)
      × ((t.slots (handle_index h)).generation ≡ handle_generation h)
unfolding unregister_handle lookup released
release_some t h k some_there = (
  ground (arith, some_there),
  ground (arith, some_there),
  ground (arith, some_there),
  ground (arith, some_there),
)

release-lookup :
    (t : HandleTable) (h h' : ℕ) (e : HandleKind)
    → h < u64_mod
    → h' < u64_mod
    → (t.slots (handle_index h)).kind ≡ handle_kind h
    → (t.slots (handle_index h)).generation ≡ handle_generation h
    → lookup (record t { slots = put t.slots (handle_index h) (released t (handle_index h)) }) h' e
      ≡ (if h' == h then 0 else lookup t h' e)
unfolding released
release-lookup t h h' e small small' kind generation =
    rw
      (
        lookup-probe
            (record t { slots = put t.slots (handle_index h) (released t (handle_index h)) }) h' e,
        lookup-probe t h' e,
      )
      (elim (Bool-cases (handle_index h' == handle_index h)) [
        | inl same ↦
            let at : handle_index h' ≡ handle_index h = ground (arith, same) in
            rw
              (
                put-same t.slots (handle_index h) (released t (handle_index h)) (handle_index h')
                    at,
                probe_free (released t (handle_index h)) refl h' e,
                at,
              )
              (ground (
                arith,
                probe_one (t.slots (handle_index h)) h h' e small small' at kind generation,
              ))
        | inr other ↦
            let away : handle_index h' ≢ handle_index h = ground (arith, other) in
            let apart : h' ≢ h = λ q. away (ap handle_index q) in
            rw
              (put-other t.slots (handle_index h) (released t (handle_index h)) (handle_index h')
                away)
              (ground (arith, apart))
      ])

-- After a handle of 64 bits is released under the kind in its fields, a lookup of it finds nothing,
-- and a lookup of any other what it found before.
pub unregister_handle-lookup :
    (t : HandleTable) (h : ℕ) (k : HandleKind)
    → h < u64_mod
    → handle_kind h ≡ k
    → (h' : ℕ) (e : HandleKind) → h' < u64_mod
    → lookup (unregister_handle t h k) h' e ≡ (if h' == h then 0 else lookup t h' e)
unregister_handle-lookup t h k small kind h' e small' = elim (Bool-cases (lookup t h k == 0)) [
  | inl gone ↦
      rw (release_none t h k kind (ground (arith, gone)))
        (grind (arith, gone, kind, lookup-other_kind t h e))
  | inr live ↦
      let facts = release_some t h k (ground (arith, live)) in
      rw (facts.0) (release-lookup t h h' e small small' (facts.2 ∙ sym kind) facts.3)
]
