-- ===== src/Web/Secrets.antt =====
-- web/utils.go: the secrets of the cookies and of the protection against forged requests, which are
-- made once and read from their files from then on. A byte string is a text.
pub mod Laws
use go_ssb_room.Base.{
  ℕ, zero, suc, Bool, ◌-◌, List, [], ◌∷◌, ◌++◌, length, take, drop, ltb, ◌==◌, Text, if◌then◌else◌,
}

-- What reading a file gives; `unreadable` is any error but the file's absence.
pub data File : Type 0 where
  unreadable missing : File
  bytes : Text → File

-- A value, with the file after the call, or an error.
pub data Loaded (A : Type 0) : Type 0 where
  failed : Loaded A
  loaded : A → File → Loaded A

-- A key to authenticate cookies with and one to encrypt them with, as `CodecsFromPairs` takes them.
abbrev pub KeyPair : Type 0
KeyPair = Text × Text

abbrev pub split_pair : Text → KeyPair
split_pair chunk = (take 32 chunk, take 32 (drop 32 chunk))

-- The loop over the file in chunks of 64 bytes: `chunk` is used in this round, and the statement
-- after the round sets it to the first bytes of `secrets` before it moves on. The rounds are
-- bounded by `fuel`.
unfoldable pub chunk_pairs : ℕ → Text → Text → List KeyPair
chunk_pairs zero chunk secrets = []
chunk_pairs (suc fuel) chunk secrets =
    let rest = chunk_pairs fuel (take 64 secrets) (drop 64 secrets) in
    if ltb (length secrets) 64 then [] else split_pair chunk ∷ rest

-- `n % 64 == 0`
unfoldable pub is_multiple : ℕ → ℕ → Bool
is_multiple zero n = n == 0
is_multiple (suc fuel) n =
    let rest = is_multiple fuel (n - 64) in
    if n == 0 then Bool.true else if ltb n 64 then Bool.false else rest

-- `LoadOrCreateCookieSecrets`; `hash_key` and `block_key` are drawn, and `writable` says whether the
-- file can be written.
unfoldable pub load_cookie_secrets : Text → Text → Bool → File → Loaded (List KeyPair)
unfolding chunk_pairs is_multiple
load_cookie_secrets hash_key block_key writable unreadable = failed
load_cookie_secrets hash_key block_key writable missing =
    if writable then loaded ((hash_key, block_key) ∷ []) (bytes (hash_key ++ block_key)) else failed
load_cookie_secrets hash_key block_key writable (bytes secrets) =
    if is_multiple (length secrets) (length secrets)
    then loaded (chunk_pairs (length secrets) (take 64 secrets) secrets) (bytes secrets)
    else failed

-- `LoadOrCreateCSRFSecret`
unfoldable pub load_csrf_secret : Text → Bool → File → Loaded Text
load_csrf_secret fresh_key writable unreadable = failed
load_csrf_secret fresh_key writable missing =
    if writable then loaded fresh_key (bytes fresh_key) else failed
load_csrf_secret fresh_key writable (bytes secret) =
    if length secret == 32 then loaded secret (bytes secret) else failed
