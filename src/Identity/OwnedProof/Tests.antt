-- ===== src/Identity/OwnedProof/Tests.antt =====
-- The signing input at concrete values.
use open_air.Prelude.{ℕ, ◌≡◌, refl, replicate, [], ◌∷◌, Bytes, none, some, arith}
use open_air.Prelude.Int.{pos, negsuc}
use open_air.Identity.DeviceId.{valid, all_in_alphabet}
use open_air.Identity.Samples.{phone_id}
use open_air.Identity.OwnedProof.{signed_fields, owned_signing_input}
use open_air.Identity.OwnedProof.Binding.{owned_signing_input_binding}

abbrev nonce : Bytes
nonce = replicate 32 1

not_a_device : owned_signing_input (48 ∷ []) 3 7 (replicate 32 1) (pos 5) ≡ none
unfolding owned_signing_input valid
not_a_device = refl

before_1970 :
    owned_signing_input phone_id 3 7 (replicate 32 1) (negsuc 4)
    ≡ some (signed_fields phone_id 3 7 (replicate 32 1) (negsuc 4))
unfolding owned_signing_input valid all_in_alphabet
before_1970 = refl

owned_signing_input_binding_example :
    (phone_id ≡ phone_id)
    × (◌≡◌ {A = ℕ} 3 3)
    × (◌≡◌ {A = ℕ} 7 7)
    × (nonce ≡ nonce)
    × (negsuc 4 ≡ negsuc 4)
owned_signing_input_binding_example =
    owned_signing_input_binding phone_id phone_id 3 3 7 7 (replicate 32 1) (replicate 32 1)
      (negsuc 4) (negsuc 4) (signed_fields phone_id 3 7 (replicate 32 1) (negsuc 4)) (omega arith)
      (omega arith) (omega arith) (omega arith) before_1970 before_1970
