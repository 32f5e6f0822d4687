-- ===== src/Keygen.antt =====
-- app/utils/keygen.go. `bcrypt.GenerateFromPassword`, with the salt of one call, is a parameter.
use corridor.Prelude.{[], Option, none, some, Result, ok, err, if◌then◌else◌}
use corridor.Prelude.Text.{Text, ◌==◌}

pub data KeygenError : Type 0 where
  empty_key hash_failed : KeygenError

abbrev pub hashed : Text → Option Text → Result KeygenError (Text × Text)
hashed lookup_key none = err hash_failed
hashed lookup_key (some hash) = ok (lookup_key, hash)

-- The lookup key and the bcrypt hash.
unfoldable pub generate_api_key_hashes :
    (Text → Text) → (Text → Option Text) → Text → Result KeygenError (Text × Text)
generate_api_key_hashes sha256_hex bcrypt_generate plaintext_key =
    if plaintext_key == []
    then err empty_key
    else hashed (sha256_hex plaintext_key) (bcrypt_generate plaintext_key)
