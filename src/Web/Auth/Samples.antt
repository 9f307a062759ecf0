-- ===== src/Web/Auth/Samples.antt =====
-- Requests on small inputs, with texts that are their own bytes and hashes of one repeated byte.
use tttt.Base.{
  ℕ, ◌%◌, ◌<◌, ◌≡◌, ◌↔◌, ◌⊎◌, refl, true, false, Option, none, some, List, [], ◌∷◌, length, arith,
}
use tttt.Base.Text.{Text, codes, text_eq, text_eq_iff}
use tttt.Web.Auth
use tttt.Web.Auth.{Crypto, Auth, required}
use tttt.Web.Auth.Granted
use tttt.Web.Auth.Granted.{Compares, check_request_iff}
use tttt.Web.Auth.Apr1
use tttt.Web.Auth.Apr1.{Digests, IsDigest, verify_apr1_iff}

abbrev sixteen : ℕ → List ℕ
sixteen b = b ∷ b ∷ b ∷ b ∷ b ∷ b ∷ b ∷ b ∷ b ∷ b ∷ b ∷ b ∷ b ∷ b ∷ b ∷ b ∷ []

abbrev plain : Crypto
plain = record {
  as_bytes = λ t. t;
  from_utf8 = λ bytes. some bytes;
  ct_eq = text_eq;
  base64_decode = λ t. some t;
  sha1 = λ bytes. bytes;
  md5 = λ bytes. sixteen (length bytes % 256);
  bcrypt_verify = λ password stored. none;
}

sixteen-IsDigest : (b : ℕ) → b < 256 → IsDigest (sixteen b)
sixteen-IsDigest b h =
    (refl, (h, (h, (h, (h, (h, (h, (h, (h, (h, (h, (h, (h, (h, (h, (h, (h, tt)))))))))))))))))

abbrev compares : Compares plain
compares = record { ct_eq_iff = λ a b h. text_eq_iff a b; as_bytes_injective = λ s t h. h }

remainder : (n : ℕ) → n % 256 < 256
remainder n = omega arith

abbrev digests : Digests plain
digests = record {
  digest = λ bytes. sixteen-IsDigest (length bytes % 256) (remainder (length bytes));
}

abbrev auth : Auth.Auth
auth = record {
  token = some (codes "s3cret");
  htpasswd = some (record { entries = (codes "ann", codes "pw") ∷ [] });
}

abbrev header : Option Text
header = some (codes "Basic ann:pw")

check_request_iff_example : (Auth.check_request plain auth [] header ≡ true) ↔ (
    (required auth ≡ false)
    ⊎ Granted.HasToken plain compares auth.token [] header
    ⊎ Granted.HasPassword plain compares auth.htpasswd [] header)
check_request_iff_example = check_request_iff plain compares auth [] header

verify_apr1_iff_example :
    (Auth.verify_hash plain
        (Apr1.stored_apr1 plain compares digests (codes "pw") (codes "salt"))
        (codes "wp")
      ≡ true)
    ↔ (Apr1.digest_of plain compares digests (codes "wp") (codes "salt")
        ≡ Apr1.digest_of plain compares digests (codes "pw") (codes "salt"))
verify_apr1_iff_example =
    verify_apr1_iff plain compares digests (codes "wp") (codes "pw") (codes "salt")
      (refl, (refl, (refl, (refl, tt))))
