-- ===== src/Identity/Unlock.antt =====
-- internal/identity/unlock.go: the decrypted privilege key, and the grants that justify holding it.
-- A time is a number of nanoseconds since 1970; the zero time is `none`. The timers are left out:
-- what they run is `sweep`, and the warning to the user. The lock makes each call one step. Page
-- locking, signing and the random nonce are parameters; zeroing the memory of a wiped key, and the
-- wrap-around of a delay after some billions of failures, are left out.
pub mod Calls
pub mod Justified
pub mod Grants
pub mod Own
pub mod Expiry
pub mod Throttle
pub mod Retry
mod Tests
use open_air.Prelude.{
  ℕ, suc, ◌+◌, ◌-◌, ◌*◌, ◌/◌, ◌^◌, Bool, true, false, not, ◌&&◌, ◌||◌, List, [], ◌∷◌, map, ltb, leb,
  ◌==◌, if◌then◌else◌, Bytes, bytes_eq, Option, none, some, Result, ok, err,
}
use open_air.Prelude.Int.{ℤ, pos, pos_part, leb_ℤ, eqb_ℤ}
use open_air.Prelude.Maps.{Map, lookup, insert, remove}
use open_air.Identity.Types.{DeviceId, ProtectionTier, tier_none}
use open_air.Identity.DeviceId.{valid}
use open_air.Identity.KeyFile.{KeyError, wrong_passphrase, KeyCrypto, open_privilege}
use open_air.Identity.OwnedProof.{owned_signing_input}

abbrev pub second : ℕ
second = 10 ^ 9

abbrev pub default_token_lifetime : ℕ
default_token_lifetime = 6 * (3600 * second)

abbrev pub max_in_flight_grace : ℕ
max_in_flight_grace = 3600 * second

-- "never"
abbrev pub policy_never : Bytes
policy_never = 110 ∷ 101 ∷ 118 ∷ 101 ∷ 114 ∷ []

abbrev pub throttle_after : ℕ
throttle_after = 3

abbrev pub throttle_step : ℕ
throttle_step = 2 * second

abbrev pub throttle_ceiling : ℕ
throttle_ceiling = 30 * second

pub record UnlockOptions : Type 0 where
  pub passphrase : Bytes
  pub keystore_kek : Bytes
  pub policy : Bytes
  pub lifetime : ℤ

pub record LockedKey : Type 0 where
  pub key : Bytes
  pub locked : Bool

-- A grant is when it expires, `none` under the policy "never".
abbrev pub Grant : Type 0
Grant = Option ℕ

pub record UnlockState : Type 0 where
  pub key : Option LockedKey
  pub grants : Map Grant
  pub failures : ℕ
  pub next_retry : Option ℕ

abbrev pub locked_state : UnlockState
locked_state = record { key = none; grants = []; failures = 0; next_retry = none }

-- What the identity was loaded with.
pub record FileIdentity : Type 0 where
  pub tier : ProtectionTier
  pub privilege_pub : Option Bytes
  pub sealed_priv_key : Option Bytes

pub data UnlockError : Type 0 where
  not_a_device no_key key_locked throttled grace_expired already_ended bad_input : UnlockError
  not_opened : KeyError → UnlockError

abbrev pub live : ℕ → Grant → Bool
live now none = true
live now (some expires) = ltb now expires

unfoldable pub drop_expired : ℕ → Map Grant → Map Grant
drop_expired now [] = []
drop_expired now ((id, g) ∷ grants) =
    let rest = drop_expired now grants in if live now g then (id, g) ∷ rest else rest

abbrev pub wipe_locked : UnlockState → UnlockState
wipe_locked st = record st { key = none }

-- `if len(s.grants) == 0 { s.wipeLocked() }`
abbrev pub wiped_if_unused : UnlockState → Map Grant → UnlockState
wiped_if_unused st [] = wipe_locked (record st { grants = [] })
wiped_if_unused st (g ∷ grants) = record st { grants = g ∷ grants }

unfoldable pub expire_locked : ℕ → UnlockState → UnlockState
expire_locked now st = wiped_if_unused st (drop_expired now st.grants)

abbrev pub throttle_locked : UnlockState → ℕ → Bool
throttle_locked st now = elim st.next_retry [
  | none ↦ false
  | some retry ↦ leb throttle_after st.failures && ltb now retry
]

abbrev pub throttle_delay : ℕ → ℕ
throttle_delay failures =
    let d = (failures - throttle_after + 1) * throttle_step in
    if ltb failures throttle_after
    then 0
    else if ltb throttle_ceiling d
    then throttle_ceiling
    else d

-- `i.tier == TierNone || i.privilegePub == nil`: the public key otherwise.
unfoldable pub privilege_of : FileIdentity → Option Bytes
privilege_of i = if eqb_ℤ i.tier tier_none then none else i.privilege_pub

abbrev pub expiry_of : UnlockOptions → ℕ → Grant
expiry_of opts now =
    let lifetime =
      if leb_ℤ opts.lifetime (pos 0) then default_token_lifetime else pos_part opts.lifetime in
    if bytes_eq opts.policy policy_never then none else some (now + lifetime)

-- The end of `Unlock`, with the key held.
abbrev pub granted :
    UnlockState → DeviceId → UnlockOptions → ℕ → UnlockState × Result UnlockError Grant
granted st target opts now = (
  record st {
    failures = 0;
    next_retry = none;
    grants = insert target (expiry_of opts now) st.grants;
  },
  ok (expiry_of opts now),
)

-- A passphrase that did not open the key counts as a failure, no other error does.
abbrev pub failed : UnlockState → ℕ → KeyError → UnlockState
failed st now wrong_passphrase = record st {
  failures = suc st.failures;
  next_retry = some (now + throttle_delay (suc st.failures));
}
failed st now e = st

-- `lock_pages` says whether the pages of a key could be pinned.
module _ (lib : KeyCrypto) (lock_pages : Bytes → Bool) (i : FileIdentity) where
  unfoldable pub unlock_with :
      Bytes → DeviceId → UnlockOptions → ℕ → UnlockState → UnlockState × Result UnlockError Grant
  unlock_with privilege_pub target opts now st =
      if throttle_locked st now then (st, err throttled) else elim st.key [
        | some held ↦ granted st target opts now
        | none ↦
            elim (open_privilege lib i.sealed_priv_key privilege_pub opts.passphrase
              opts.keystore_kek) [
                | err e ↦ (failed st now e, err (not_opened e))
                | ok priv ↦
                    granted
                      (record st { key = some (record { key = priv; locked = lock_pages priv }) })
                      target opts now
              ]
      ]

  unfoldable pub unlock :
      DeviceId → UnlockOptions → ℕ → UnlockState → UnlockState × Result UnlockError Grant
  unlock target opts now st =
      if not (valid target) then (st, err not_a_device) else elim (privilege_of i) [
        | none ↦ (st, err no_key)
        | some privilege_pub ↦ unlock_with privilege_pub target opts now (expire_locked now st)
      ]

unfoldable pub lock : UnlockState → UnlockState
lock st = wipe_locked (record st { grants = [] })

unfoldable pub lock_peer : DeviceId → UnlockState → UnlockState
lock_peer target st = wiped_if_unused st (remove target st.grants)

unfoldable pub unlocked_until : DeviceId → ℕ → UnlockState → UnlockState × Option Grant
unlocked_until target now st = let s = expire_locked now st in (s, lookup target s.grants)

unfoldable pub unlocked_peers : ℕ → UnlockState → UnlockState × List DeviceId
unlocked_peers now st = let s = expire_locked now st in (s, map (λ g. g.0) s.grants)

abbrev pub swappable : UnlockState → Bool
swappable st = elim st.key [ none ↦ false | some k ↦ not k.locked ]

-- `SignOwned`, on the nonce that the random source gave: the time of issue and the signature.
unfoldable pub sign_owned :
    (Bytes → Bytes → Bytes)
    → FileIdentity
    → DeviceId
    → ℕ
    → ℕ
    → Bytes
    → ℕ
    → UnlockState
    → UnlockState × Result UnlockError (ℤ × Bytes)
sign_owned sign i target cap_id msg_type nonce now st =
    let s = expire_locked now st in
    let issued_at = pos (now / 10 ^ 6) in
    elim (privilege_of i) [
      | none ↦ (st, err no_key)
      | some privilege_pub ↦ elim (lookup target s.grants) [
        | none ↦ (s, err key_locked)
        | some g ↦ elim s.key [
          | none ↦ (s, err key_locked)
          | some k ↦ elim (owned_signing_input target cap_id msg_type nonce issued_at) [
            | none ↦ (s, err bad_input)
            | some input ↦ (s, ok (issued_at, sign k.key input))
          ]
        ]
      ]
    ]

pub record Operation : Type 0 where
  pub target : DeviceId
  pub deadline : Option ℕ
  pub ended : Bool

abbrev pub deadline_of : Grant → Option ℕ
deadline_of none = none
deadline_of (some expires) = some (expires + max_in_flight_grace)

unfoldable pub begin_owned :
    FileIdentity → DeviceId → ℕ → UnlockState → UnlockState × Result UnlockError Operation
begin_owned i target now st =
    let s = expire_locked now st in
    elim (privilege_of i) [
      | none ↦ (st, err no_key)
      | some privilege_pub ↦ elim (lookup target s.grants) [
        | none ↦ (s, err key_locked)
        | some g ↦ (s, ok (record { target = target; deadline = deadline_of g; ended = false }))
      ]
    ]

-- `Check`: what keeps the operation from going on, if anything does.
unfoldable pub check : Operation → ℕ → Option UnlockError
check op now = if op.ended then some already_ended else elim op.deadline [
  | none ↦ none
  | some deadline ↦ if ltb deadline now then some grace_expired else none
]

abbrev pub end_owned : Operation → Operation
end_owned op = record op { ended = true }
