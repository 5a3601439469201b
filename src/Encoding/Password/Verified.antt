-- ===== src/Encoding/Password/Verified.antt =====
-- A record accepts its password.
use dezhou.Prelude.{
  ℕ, ◌≡◌, ◌↔◌, refl, sym, ◌∙◌, ap, true, false, List, [], ◌∷◌, ◌++◌, some, ◌==◌, ==_refl, All,
  arith,
}
use dezhou.Text.{codes, same_text}
use dezhou.Encoding.Password.{
  split_at, stoi, password_digest, hash_password_record, digest_matches, verify_password_record,
  check_version, check_salt, check_digest, read_number, read_digits, k_iterations,
}

same_text_refl : (xs : List ℕ) → same_text xs xs ≡ true
unfolding same_text
same_text_refl [] = refl
same_text_refl (x ∷ xs) = rw (==_refl x, same_text_refl xs) refl

same_text-eq : (xs ys : List ℕ) → same_text xs ys ≡ true → xs ≡ ys
unfolding same_text
same_text-eq [] [] h = refl
same_text-eq [] (y ∷ ys) h = absurd (ground arith)
same_text-eq (x ∷ xs) [] h = absurd (ground arith)
same_text-eq (x ∷ xs) (y ∷ ys) h = ground (arith, same_text-eq xs ys)

abbrev pub IsPlain : List ℕ → Type 0
IsPlain = All (λ c. (c == b'$') ≡ false)

split_at-IsPlain :
    (before after : List ℕ)
    → IsPlain before
    → split_at b'$' (before ++ b'$' ∷ after) ≡ some (before, after)
unfolding split_at
split_at-IsPlain [] after h = refl
split_at-IsPlain (c ∷ cs) after h = rw (split_at, h.0, split_at-IsPlain cs after h.1) refl

verify-record :
    (other salt digest : List ℕ)
    → IsPlain salt
    → verify_password_record other (codes "v1$" ++ (salt ++ (codes "$120000$" ++ digest)))
      ≡ same_text (password_digest other salt k_iterations) digest
unfolding verify_password_record check_version check_salt check_digest digest_matches split_at stoi
    read_number read_digits
verify-record other salt digest h =
    ap (check_salt other) (split_at-IsPlain salt (codes "120000$" ++ digest) h)

-- The record of a password accepts that password, and any other only if its digest is the same,
-- for every salt without a dollar sign.
pub verify_password_record-hash_password_record :
    (password other salt : List ℕ)
    → IsPlain salt
    → (verify_password_record password (hash_password_record password salt) ≡ true)
      × ((verify_password_record other (hash_password_record password salt) ≡ true)
          ↔ (password_digest other salt k_iterations ≡ password_digest password salt k_iterations))
unfolding hash_password_record
verify_password_record-hash_password_record password other salt h =
    let digest = password_digest password salt k_iterations in
    (
      verify-record password salt digest h ∙ same_text_refl digest,
      (
        (λ e. same_text-eq _ _ (sym (verify-record other salt digest h) ∙ e)),
        (λ e.
            verify-record other salt digest h
            ∙ ap (λ d. same_text d digest) e
            ∙ same_text_refl digest),
      ),
    )
