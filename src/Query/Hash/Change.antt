-- ===== src/Query/Hash/Change.antt =====
-- A change of one byte changes the fingerprint.
use block_type.Prelude.{
  ℕ, ◌*◌, ◌%◌, ◌^◌, ◌≡◌, ◌≢◌, ◌<◌, List, [], ◌∷◌, ◌++◌, All, bit_xor, arith, ◌∙◌, sym, refl,
}
use block_type.Prelude.Bits.{bit_xor-cancel, bit_xor_comm, bit_xor-small}
use block_type.Query.Hash.{fnv64_prime, mix, mix_all, text_fingerprint, fnv64_offset_basis}

-- The prime is odd, so that multiplication by it can be undone.
prime-cancel :
    (x y : ℕ)
    → x < 2 ^ 64
    → y < 2 ^ 64
    → x * fnv64_prime % 2 ^ 64 ≡ y * fnv64_prime % 2 ^ 64
    → x ≡ y
prime-cancel x y hx hy e = omega arith

mix-small : (hash x : ℕ) → mix hash x < 2 ^ 64
unfolding mix
mix-small hash x = omega arith

mix-cancel_value :
    (hash x y : ℕ) → hash < 2 ^ 64 → x < 2 ^ 64 → y < 2 ^ 64 → mix hash x ≡ mix hash y → x ≡ y
unfolding mix
mix-cancel_value hash x y hh hx hy e = bit_xor-cancel hash x y (
    prime-cancel (bit_xor hash x) (bit_xor hash y) (bit_xor-small 64 hash x hh hx)
      (bit_xor-small 64 hash y hh hy) e)

mix-cancel_hash : (h k x : ℕ) → h < 2 ^ 64 → k < 2 ^ 64 → x < 2 ^ 64 → mix h x ≡ mix k x → h ≡ k
unfolding mix
mix-cancel_hash h k x hh hk hx e =
    let same =
      prime-cancel (bit_xor h x) (bit_xor k x) (bit_xor-small 64 h x hh hx)
        (bit_xor-small 64 k x hk hx) e in
    bit_xor-cancel x h k (bit_xor_comm x h ∙ same ∙ bit_xor_comm k x)

mix_all-small : (hash : ℕ) (xs : List ℕ) → hash < 2 ^ 64 → mix_all hash xs < 2 ^ 64
unfolding mix_all
mix_all-small hash [] h = h
mix_all-small hash (x ∷ xs) h = mix_all-small (mix hash x) xs (mix-small hash x)

mix_all-cancel_hash :
    (h k : ℕ) (xs : List ℕ)
    → h < 2 ^ 64
    → k < 2 ^ 64
    → All (λ x. x < 256) xs
    → mix_all h xs ≡ mix_all k xs
    → h ≡ k
unfolding mix_all
mix_all-cancel_hash h k [] hh hk bytes e = e
mix_all-cancel_hash h k (x ∷ xs) hh hk bytes e =
    mix-cancel_hash h k x hh hk (omega (arith, bytes.0))
      (mix_all-cancel_hash (mix h x) (mix k x) xs (mix-small h x) (mix-small k x) bytes.1 e)

mix_all-append :
    (hash : ℕ) (xs ys : List ℕ) → mix_all hash (xs ++ ys) ≡ mix_all (mix_all hash xs) ys
unfolding mix_all
mix_all-append hash [] ys = refl
mix_all-append hash (x ∷ xs) ys = mix_all-append (mix hash x) xs ys

text_fingerprint_same :
    (before after : List ℕ) (x y : ℕ)
    → x < 256
    → y < 256
    → All (λ b. b < 256) after
    → text_fingerprint (before ++ x ∷ after) ≡ text_fingerprint (before ++ y ∷ after)
    → x ≡ y
unfolding text_fingerprint mix_all
text_fingerprint_same before after x y hx hy bytes e =
    let hash = mix_all fnv64_offset_basis before in
    let small = mix_all-small fnv64_offset_basis before (omega arith) in
    mix-cancel_value hash x y small (omega arith) (omega arith) (
      mix_all-cancel_hash (mix hash x) (mix hash y) after (mix-small hash x) (mix-small hash y)
        bytes
        (sym (mix_all-append fnv64_offset_basis before (x ∷ after))
          ∙ e
          ∙ mix_all-append fnv64_offset_basis before (y ∷ after)))

-- Two texts of bytes that differ in exactly one place have different fingerprints.
pub text_fingerprint_change :
    (before after : List ℕ) (x y : ℕ)
    → x < 256
    → y < 256
    → All (λ b. b < 256) after
    → x ≢ y
    → text_fingerprint (before ++ x ∷ after) ≢ text_fingerprint (before ++ y ∷ after)
text_fingerprint_change before after x y hx hy bytes differ e =
    differ (text_fingerprint_same before after x y hx hy bytes e)
