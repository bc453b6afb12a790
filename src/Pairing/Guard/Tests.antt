-- ===== src/Pairing/Guard/Tests.antt =====
-- A revoke on a concrete handler.
use open_air.Prelude.{◌≡◌, ◌⊎◌, inl, refl, true, false, [], ◌∷◌, some, bytes_eq, ◌&&◌}
use open_air.Prelude.Int.{leb_ℤ}
use open_air.Prelude.Maps.{lookup, insert, remove}
use open_air.Identity.Types.{TrustLevel, level_unpaired, level_owned, DeviceId}
use open_air.Identity.Samples.{sha256, phone_id, one_peer, write_ok, one_peer-AllValid}
use open_air.Identity.TrustStore.{get}
use open_air.Pairing.Guard.{
  Session, Handler, guard_at, allows, guard_for, narrow, set_guard, store_failed, not_delivered,
  revoke,
}
use open_air.Pairing.Guard.Revoke.{IsAtMost, StoreFails, OnHeap, revoke_lem}

abbrev handler : Handler
handler = record { store = one_peer; heap = []; guards = []; window = 0 }

abbrev session : Session
session = record { key = 1 ∷ []; peer_id = phone_id }

handler-OnHeap : OnHeap handler
unfolding lookup
handler-OnHeap k = inl refl

-- A revoke above the stored level raises the live guard all the same.
raised_test :
    allows (guard_at (revoke sha256 write_ok handler session level_owned [] true).0 0) level_owned
    ≡ true
unfolding allows revoke guard_for narrow set_guard get lookup bytes_eq insert remove
raised_test = refl

revoke_lem_example :
    (StoreFails sha256 write_ok handler.store phone_id level_unpaired
      × ((revoke sha256 write_ok handler session level_unpaired [] false).2 ≡ some store_failed)
      × ((revoke sha256 write_ok handler session level_unpaired [] false).1 ≡ [])
      × ((id : DeviceId)
          → get (revoke sha256 write_ok handler session level_unpaired [] false).0.store id
            ≡ get one_peer id)
      × (guard_at
            (revoke sha256 write_ok handler session level_unpaired [] false).0
            (guard_for handler session).1
          ≡ guard_at (guard_for handler session).0 (guard_for handler session).1))
    ⊎ (((revoke sha256 write_ok handler session level_unpaired [] false).2 ≡ some not_delivered)
        × IsAtMost
            (revoke sha256 write_ok handler session level_unpaired [] false).0.store
            phone_id
            level_unpaired
        × ((required : TrustLevel)
            → allows
                (guard_at
                  (revoke sha256 write_ok handler session level_unpaired [] false).0
                  (guard_for handler session).1)
                required
              ≡ (leb_ℤ required level_unpaired && false)))
revoke_lem_example =
    revoke_lem sha256 write_ok handler session level_unpaired [] false one_peer-AllValid
      handler-OnHeap
