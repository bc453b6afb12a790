-- ===== src/Identity/TrustStore/Laws.antt =====
-- What the store answers after a call, whether its write succeeded or not.
use open_air.Prelude.{
  ◌≡◌, refl, sym, ap, subst, ◌∙◌, ◌⊎◌, inl, inr, true, false, Bool-cases, Option-cases,
  if◌then◌else◌, Option, none, some, Bytes, bytes_eq, bytes_eq→eq,
}
use open_air.Prelude.Maps.{
  lookup, insert, remove, lookup-insert, lookup-remove, lookup-reinsert, lookup-reremove,
  untouched-insert, untouched-remove,
}
use open_air.Identity.Types.{DeviceId, Peer}
use open_air.Identity.TrustStore.{
  TrustStore, TrustStoreFile, invalid_peer, unknown_peer, io, get, validate_peer, flush_locked, put,
  delete,
}

module _ (sha256 : Bytes → Bytes) where
  -- Every record stands under its own id and passes `validatePeer`.
  abbrev pub AllValid : TrustStore → Type 0
  AllValid s =
      (id : DeviceId)
      → (get s id ≡ none)
        ⊎ ((p : Peer) × (get s id ≡ some p) × (p.device_id ≡ id) × (validate_peer sha256 p ≡ true))

  module _ {Io : Type 0} (write_file : TrustStoreFile → Option Io) where
    put_invalid :
        (s : TrustStore) (p : Peer)
        → validate_peer sha256 p ≡ false
        → put sha256 write_file s p ≡ (s, some invalid_peer)
    unfolding put
    put_invalid s p e = rw e refl

    put_written :
        (s : TrustStore) (p : Peer)
        → validate_peer sha256 p ≡ true
        → flush_locked write_file (insert p.device_id p s) ≡ none
        → put sha256 write_file s p ≡ (insert p.device_id p s, none)
    unfolding put
    put_written s p e w = rw (e, w) refl

    put_failed :
        (s : TrustStore) (p : Peer) (x : Io)
        → validate_peer sha256 p ≡ true
        → flush_locked write_file (insert p.device_id p s) ≡ some x
        → (t : TrustStore) × (put sha256 write_file s p ≡ (t, some (io x)))
          × ((id : DeviceId) → lookup id t ≡ lookup id s)
    unfolding put
    put_failed s p x e w =
        let s' = insert p.device_id p s in
        elim (Option-cases (lookup p.device_id s)) [
          | inl absent ↦ (
            remove p.device_id s',
            rw (e, w, absent) refl,
            λ id. lookup-reremove id p.device_id s s' absent (untouched-insert id p.device_id p s),
          )
          | inr (q, present) ↦ (
            insert p.device_id q s',
            rw (e, w, present) refl,
            λ id.
                lookup-reinsert id p.device_id q s s' present (untouched-insert id p.device_id p s),
          )
        ]

    -- `Put` refuses an invalid record and leaves the store as it was. If the write fails, it returns
    -- that error and every lookup answers as before. Otherwise the file holds the new store, in which
    -- the record is found under its id and every other lookup answers as before.
    pub put_lem :
        (s : TrustStore) (p : Peer)
        → ((validate_peer sha256 p ≡ false) × (put sha256 write_file s p ≡ (s, some invalid_peer)))
          ⊎ ((validate_peer sha256 p ≡ true)
              × ((e : Io) × ((put sha256 write_file s p).1 ≡ some (io e))
                  × ((id : DeviceId) → get (put sha256 write_file s p).0 id ≡ get s id)))
          ⊎ ((validate_peer sha256 p ≡ true)
              × ((put sha256 write_file s p).1 ≡ none)
              × (flush_locked write_file (put sha256 write_file s p).0 ≡ none)
              × ((id : DeviceId)
                  → get (put sha256 write_file s p).0 id
                    ≡ (if bytes_eq id p.device_id then some p else get s id)))
    unfolding get
    put_lem s p = elim (Bool-cases (validate_peer sha256 p)) [
      | inr bad ↦ inl (bad, put_invalid s p bad)
      | inl good ↦
          let s' = insert p.device_id p s in
          elim (Option-cases (flush_locked write_file s')) [
            | inl written ↦
                let e = put_written s p good written in
                inr (
                  inr (
                    good,
                    ap (λ r. r.1) e,
                    subst (λ r. flush_locked write_file r.0 ≡ none) (sym e) written,
                    λ id. ap (λ r. lookup id r.0) e ∙ lookup-insert id p.device_id p s,
                  ))
            | inr (x, failed) ↦
                let (t, e, same) = put_failed s p x good failed in
                inr (inl (good, (x, ap (λ r. r.1) e, λ id. ap (λ r. lookup id r.0) e ∙ same id)))
          ]
    ]

    delete_absent :
        (s : TrustStore) (id : DeviceId)
        → lookup id s ≡ none
        → delete write_file s id ≡ (s, some unknown_peer)
    unfolding delete
    delete_absent s id e = rw (delete, e) refl

    delete_written :
        (s : TrustStore) (id : DeviceId) (p : Peer)
        → lookup id s ≡ some p
        → flush_locked write_file (remove id s) ≡ none
        → delete write_file s id ≡ (remove id s, none)
    unfolding delete
    delete_written s id p e w = rw (delete, e, w) refl

    delete_failed :
        (s : TrustStore) (id : DeviceId) (p : Peer) (x : Io)
        → lookup id s ≡ some p
        → flush_locked write_file (remove id s) ≡ some x
        → delete write_file s id ≡ (insert id p (remove id s), some (io x))
    unfolding delete
    delete_failed s id p x e w = rw (delete, e, w) refl

    -- `Delete` of an id that the store does not hold leaves it as it was. If the write fails, it
    -- returns that error and every lookup answers as before. Otherwise the file holds the new store,
    -- in which the id is gone and every other lookup answers as before.
    pub delete_lem :
        (s : TrustStore) (id : DeviceId)
        → ((get s id ≡ none) × (delete write_file s id ≡ (s, some unknown_peer)))
          ⊎ ((p : Peer) × (get s id ≡ some p)
              × (((e : Io) × ((delete write_file s id).1 ≡ some (io e))
                    × ((id' : DeviceId) → get (delete write_file s id).0 id' ≡ get s id'))
                  ⊎ (((delete write_file s id).1 ≡ none)
                      × (flush_locked write_file (delete write_file s id).0 ≡ none)
                      × ((id' : DeviceId)
                          → get (delete write_file s id).0 id'
                            ≡ (if bytes_eq id' id then none else get s id')))))
    unfolding get
    delete_lem s id = elim (Option-cases (lookup id s)) [
      | inl absent ↦ inl (absent, delete_absent s id absent)
      | inr (p, present) ↦ inr (
        p,
        present,
        elim (Option-cases (flush_locked write_file (remove id s))) [
          | inl written ↦
              let e = delete_written s id p present written in
              inr (
                ap (λ r. r.1) e,
                subst (λ r. flush_locked write_file r.0 ≡ none) (sym e) written,
                λ id'. ap (λ r. lookup id' r.0) e ∙ lookup-remove id' id s,
              )
          | inr (x, failed) ↦
              let e = delete_failed s id p x present failed in
              inl (
                x,
                ap (λ r. r.1) e,
                λ id'.
                    ap (λ r. lookup id' r.0) e
                    ∙ lookup-reinsert id' id p s (remove id s) present (untouched-remove id' id s),
              )
        ],
      )
    ]

    as_before :
        (s t : TrustStore) (id : DeviceId)
        → AllValid s
        → get t id ≡ get s id
        → (get t id ≡ none)
          ⊎ ((p : Peer) × (get t id ≡ some p)
              × (p.device_id ≡ id)
              × (validate_peer sha256 p ≡ true))
    as_before s t id v e = elim (v id) [
      | inl a ↦ inl (e ∙ a)
      | inr (q, found, same, good) ↦ inr (q, e ∙ found, same, good)
    ]

    valid_under :
        (s t : TrustStore) (p : Peer)
        → AllValid s
        → validate_peer sha256 p ≡ true
        → ((id : DeviceId) → get t id ≡ (if bytes_eq id p.device_id then some p else get s id))
        → AllValid t
    valid_under s t p v good look id = elim (Bool-cases (bytes_eq id p.device_id)) [
      | inl same ↦ inr (p, look id ∙ rw same refl, sym (bytes_eq→eq id p.device_id same), good)
      | inr other ↦ as_before s t id v (look id ∙ rw other refl)
    ]

    -- If every record stands under its own id and is valid, this is so after `Put`, also where it fails.
    pub put-AllValid :
        (s : TrustStore) (p : Peer) → AllValid s → AllValid (put sha256 write_file s p).0
    put-AllValid s p v = elim (put_lem s p) [
      | inl (bad, e) ↦ subst (λ r. AllValid r.0) (sym e) v
      | inr (inl (good, (x, e, same))) ↦
          λ id. as_before s (put sha256 write_file s p).0 id v (same id)
      | inr (inr (good, e, w, look)) ↦ valid_under s (put sha256 write_file s p).0 p v good look
    ]
