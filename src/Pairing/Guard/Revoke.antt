-- ===== src/Pairing/Guard/Revoke.antt =====
-- A revoke takes hold of the store and of the live guard, or reports that the store failed.
use open_air.Prelude.{
  ℕ, ◌<◌, ◌≡◌, ◌⊎◌, inl, inr, refl, sym, ap, subst, ◌∙◌, Bool, true, false, Bool-cases, ◌&&◌, [],
  ◌∷◌, ◌++◌, Option, none, some, Option-cases, if◌then◌else◌, length, length-append,
  get_or-set_self, Bytes, bytes_eq_refl, arith,
}
use open_air.Prelude.Int.{ℤ, leb_ℤ, ltb_ℤ, eqb_ℤ, ◌≤ℤ◌}
use open_air.Prelude.Maps.{lookup, insert, remove}
use open_air.Identity.Types.{TrustLevel, level_unpaired, DeviceId, Peer}
use open_air.Identity.TrustStore.{
  TrustStore, TrustStoreFile, get, validate_peer, flush_locked, put, delete,
}
use open_air.Identity.TrustStore.Laws.{AllValid, put_lem, delete_lem}
use open_air.Pairing.Guard.{
  Session, Handler, no_guard, guard_at, allows, set_guard, guard_for, fresh_guard, detach,
  store_failed, not_delivered, is_failure, narrow, revoke,
}

-- A store in which a peer is unknown, or known at a level at most this.
abbrev pub IsAtMost : TrustStore → DeviceId → TrustLevel → Type 0
IsAtMost s id level = (get s id ≡ none) ⊎ ((p : Peer) × (get s id ≡ some p) × (p.level ≤ℤ level))

ltb_ℤ→ge : (a b : ℤ) → ltb_ℤ a b ≡ false → b ≤ℤ a
ltb_ℤ→ge a b h = ground arith

module _ {Io : Type 0} (sha256 : Bytes → Bytes) (write_file : TrustStoreFile → Option Io) where
  -- The store's part of a revoke: it fails and answers every lookup as before, or the peer is at
  -- most at the new level.
  abbrev Narrowed : TrustStore → DeviceId → TrustLevel → TrustStore × Bool → Type 0
  Narrowed s id level r =
      ((r.1 ≡ true) × ((id' : DeviceId) → get r.0 id' ≡ get s id'))
      ⊎ ((r.1 ≡ false) × IsAtMost r.0 id level)

  -- Why the store may fail at a revoke. It holds a record of the peer, and: it has to be deleted, and
  -- writing the store without it fails; or it has to be lowered, and the lowered record is not one
  -- that the store takes, or writing the store with it fails.
  abbrev Fails : TrustStore → Type 0
  Fails t = (e : Io) × (flush_locked write_file t ≡ some e)

  abbrev pub StoreFails : TrustStore → DeviceId → TrustLevel → Type 0
  StoreFails s id level =
      (p : Peer) × (get s id ≡ some p)
      × (((eqb_ℤ level level_unpaired ≡ true) × Fails (remove id s))
          ⊎ ((ltb_ℤ level p.level ≡ true)
              × ((validate_peer sha256 (record p { level = level }) ≡ false)
                  ⊎ Fails (insert p.device_id (record p { level = level }) s))))

  delete-Fails :
      (s : TrustStore) (id : DeviceId)
      → is_failure (delete write_file s id).1 ≡ true
      → (p : Peer) × (get s id ≡ some p) × Fails (remove id s)
  unfolding delete get
  delete-Fails s id h = elim (Option-cases (lookup id s)) [
    | inl absent ↦ absurd (grind (arith, rw (delete, absent) at h))
    | inr (p, found) ↦ elim (Option-cases (flush_locked write_file (remove id s))) [
      | inl written ↦ absurd (grind (arith, rw (delete, found, written) at h))
      | inr (e, failed) ↦ (p, found, (e, failed))
    ]
  ]

  put-Fails :
      (s : TrustStore) (p : Peer)
      → is_failure (put sha256 write_file s p).1 ≡ true
      → (validate_peer sha256 p ≡ false) ⊎ Fails (insert p.device_id p s)
  unfolding put
  put-Fails s p h = elim (Bool-cases (validate_peer sha256 p)) [
    | inr bad ↦ inl bad
    | inl good ↦ elim (Option-cases (flush_locked write_file (insert p.device_id p s))) [
      | inl written ↦ absurd (grind (arith, rw (put, good, written) at h))
      | inr (e, failed) ↦ inr (e, failed)
    ]
  ]

  narrow-StoreFails :
      (s : TrustStore) (id : DeviceId) (level : TrustLevel)
      → (narrow sha256 write_file s id level).1 ≡ true
      → StoreFails s id level
  unfolding narrow
  narrow-StoreFails s id level h = elim (Bool-cases (eqb_ℤ level level_unpaired)) [
    | inl off ↦
        let (p, found, fails) = delete-Fails s id (rw (narrow, off) at h) in
        (p, found, inl (off, fails))
    | inr on ↦ elim (Option-cases (get s id)) [
      | inl absent ↦ absurd (grind (arith, rw (narrow, on, absent) at h))
      | inr (p, found) ↦ elim (Bool-cases (ltb_ℤ level p.level)) [
        | inr below ↦ absurd (grind (arith, rw (narrow, on, found, below) at h))
        | inl above ↦ (
          p,
          found,
          inr (
            above,
            put-Fails s (record p { level = level }) (rw (narrow, on, found, above) at h),
          ),
        )
      ]
    ]
  ]

  delete-Narrowed :
      (s : TrustStore) (id : DeviceId) (level : TrustLevel)
      → Narrowed s id level ((delete write_file s id).0, is_failure (delete write_file s id).1)
  delete-Narrowed s id level = elim (delete_lem sha256 write_file s id) [
    | inl (absent, d) ↦ inr (ap (λ r. is_failure r.1) d, inl (ap (λ r. get r.0 id) d ∙ absent))
    | inr (p, found, inl (x, d, same)) ↦ inl (ap is_failure d, same)
    | inr (p, found, inr (d, written, gone)) ↦
        inr (ap is_failure d, inl (gone id ∙ rw (bytes_eq_refl id) refl))
  ]

  put-Narrowed :
      (s : TrustStore) (id : DeviceId) (level : TrustLevel) (p : Peer)
      → p.device_id ≡ id
      → p.level ≡ level
      → Narrowed s id level
          ((put sha256 write_file s p).0, is_failure (put sha256 write_file s p).1)
  put-Narrowed s id level p same_id at_level = elim (put_lem sha256 write_file s p) [
    | inl (bad, d) ↦ inl (ap (λ r. is_failure r.1) d, λ id'. ap (λ r. get r.0 id') d)
    | inr (inl (good, (x, d, same))) ↦ inl (ap is_failure d, same)
    | inr (inr (good, d, written, look)) ↦ inr (
      ap is_failure d,
      inr (p, look id ∙ rw (same_id, bytes_eq_refl id) refl, rw at_level (omega arith)),
    )
  ]

  narrow-Narrowed :
      (s : TrustStore) (id : DeviceId) (level : TrustLevel)
      → AllValid sha256 s
      → Narrowed s id level (narrow sha256 write_file s id level)
  unfolding narrow
  narrow-Narrowed s id level v = elim (Bool-cases (eqb_ℤ level level_unpaired)) [
    | inl off ↦ rw off (delete-Narrowed s id level)
    | inr on ↦ elim (v id) [
      | inl absent ↦ rw (on, absent) (inr (refl, inl absent))
      | inr (p, found, same_id, good) ↦ elim (Bool-cases (ltb_ℤ level p.level)) [
        | inl above ↦
            rw (on, found, above)
              (put-Narrowed s id level (record p { level = level }) same_id refl)
        | inr below ↦
            rw (on, found, below) (inr (refl, inr (p, found, ltb_ℤ→ge level p.level below)))
      ]
    ]
  ]

-- The map of guards leads to objects on the heap.
abbrev pub OnHeap : Handler → Type 0
OnHeap h =
    (k : Bytes)
    → (lookup k h.guards ≡ none) ⊎ ((g : ℕ) × (lookup k h.guards ≡ some g) × (g < length h.heap))

-- The handler with a new guard for the session.
abbrev opened : Handler → Session → Handler × ℕ
opened h sess = (
  record h {
    heap = h.heap ++ (fresh_guard h.store sess.peer_id ∷ []);
    guards = insert sess.key (length h.heap) h.guards;
  },
  length h.heap,
)

guard_for_lem :
    (h : Handler) (sess : Session)
    → OnHeap h
    → ((guard_for h sess).1 < length (guard_for h sess).0.heap)
      × ((guard_for h sess).0.store ≡ h.store)
unfolding guard_for
guard_for_lem h sess w = elim (w sess.key) [
  | inl absent ↦
      let e : guard_for h sess ≡ opened h sess = rw (guard_for, absent) refl in
      rw e (omega (arith, length-append h.heap (fresh_guard h.store sess.peer_id ∷ [])), refl)
  | inr (g, found, lt) ↦
      let e : guard_for h sess ≡ (h, g) = rw (guard_for, found) refl in rw e (lt, refl)
]

-- What a guard allows once its level is set.
allows-set_guard :
    (h : Handler) (g : ℕ) (level : TrustLevel) (reason : Bytes) (required : TrustLevel)
    → g < length h.heap
    → allows (guard_at (set_guard h g level reason) g) required
      ≡ (leb_ℤ required level && ltb_ℤ level_unpaired level)
unfolding allows set_guard
allows-set_guard h g level reason required lt =
    rw
      (get_or-set_self h.heap g (record (guard_at h g) { level = level; reason = reason }) no_guard
        lt)
      refl

module _ {Io : Type 0} (sha256 : Bytes → Bytes) (write_file : TrustStoreFile → Option Io) where
  -- Suppose that the store holds each record under its own id and valid, and that the map of guards
  -- leads to guards. Either the store fails: it holds the peer, and writing the store without it, at a
  -- revoke to unpaired, or with a record lowered to the level fails, or the lowered record is refused;
  -- then the revoke says so, sends nothing, and leaves every lookup of the store and the session's
  -- guard as they were. Or the revoke takes effect, whether the notification is sent or not: the store
  -- has the peer at most at the new level, or not at all, and the session's guard allows an operation
  -- exactly if the new level covers it and is above unpaired.
  pub revoke_lem :
      (h : Handler) (sess : Session) (level : TrustLevel) (reason : Bytes) (sent : Bool)
      → AllValid sha256 h.store
      → OnHeap h
      → (StoreFails sha256 write_file h.store sess.peer_id level
          × ((revoke sha256 write_file h sess level reason sent).2 ≡ some store_failed)
          × ((revoke sha256 write_file h sess level reason sent).1 ≡ [])
          × ((id : DeviceId)
              → get (revoke sha256 write_file h sess level reason sent).0.store id ≡ get h.store id)
          × (guard_at (revoke sha256 write_file h sess level reason sent).0 (guard_for h sess).1
              ≡ guard_at (guard_for h sess).0 (guard_for h sess).1))
        ⊎ (((revoke sha256 write_file h sess level reason sent).2
              ≡ (if sent then none else some not_delivered))
            × IsAtMost
                (revoke sha256 write_file h sess level reason sent).0.store
                sess.peer_id
                level
            × ((required : TrustLevel)
                → allows
                    (guard_at
                      (revoke sha256 write_file h sess level reason sent).0
                      (guard_for h sess).1)
                    required
                  ≡ (leb_ℤ required level && ltb_ℤ level_unpaired level)))
  unfolding revoke detach set_guard
  revoke_lem h sess level reason sent v w =
      let (lt, kept) = guard_for_lem h sess w in
      let s = (guard_for h sess).0.store in
      let h' = record ((guard_for h sess).0) {
        store = (narrow sha256 write_file s sess.peer_id level).0;
      } in
      let takes_hold = λ (required : TrustLevel).
        allows-set_guard h' (guard_for h sess).1 level reason required lt in
      elim (narrow-Narrowed sha256 write_file s sess.peer_id level
        (subst (AllValid sha256) (sym kept) v)) [
          | inl (failed, same) ↦
              let why =
                subst (λ t. StoreFails sha256 write_file t sess.peer_id level) kept
                  (narrow-StoreFails sha256 write_file s sess.peer_id level failed) in
              inl (rw failed (why, refl, refl, λ id. same id ∙ ap (λ t. get t id) kept, refl))
          | inr (fine, low) ↦ elim (Bool-cases (eqb_ℤ level level_unpaired)) [
            | inl off ↦ inr (rw (fine, off) (refl, low, takes_hold))
            | inr on ↦ inr (rw (fine, on) (refl, low, takes_hold))
          ]
        ]
