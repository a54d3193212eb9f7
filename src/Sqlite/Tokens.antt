-- ===== src/Sqlite/Tokens.antt =====
-- The code under other repositories that the services call on tokens and passwords, and
-- `getHashedToken` of roomdb/sqlite/invites.go. A byte string is a text.
use go_ssb_room.Base.{ℕ, Bool, Option, none, some, ◌==◌, Text, length, if◌then◌else◌}
use go_ssb_room.Roomdb.{FeedRef, bad_token_encoding, bad_token_length, Result, ok, err}
use go_ssb_room.Sqlite.Db.{Action, done, fail}

pub record Codec : Type 0 where
  -- `refs.ParseFeedRef`
  pub parse : Text → Option FeedRef
  -- `base64.URLEncoding`
  pub decode : Text → Option Text
  pub encode : Text → Text
  -- SHA-256, printed in hexadecimal
  pub sha256 : Text → Text
  -- `bcrypt.GenerateFromPassword` with its salt drawn, and `bcrypt.CompareHashAndPassword`
  pub bcrypt : Text → Option Text
  pub matches : Text → Text → Bool

abbrev pub invite_token_length : ℕ
invite_token_length = 50

unfoldable pub hash_of_length : Codec → Text → ℕ → Result Text
hash_of_length c bytes n =
    if n == invite_token_length then ok (c.sha256 bytes) else err (bad_token_length n)

-- `getHashedToken`
unfoldable pub get_hashed_token : Codec → Text → Result Text
unfolding hash_of_length
get_hashed_token c token = elim (c.decode token) [
  | none ↦ err bad_token_encoding
  | some bytes ↦ hash_of_length c bytes (length bytes)
]

-- A result that was computed before the database is asked.
abbrev pub lift : {A : Type 0} → Result A → Action A
lift (ok a) = done a
lift (err e) = fail e
