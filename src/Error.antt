-- ===== src/Error.antt =====
-- alerter/src/error.rs: the error type of the alerter, its conversions and its messages, and the
-- ways in which a task's code ends: with a value, with an error that `?` passes up, or by a panic.
use subspace_chain_alerts.Base.{
  ℕ, ◌≡◌, refl, ap, List, [], ◌∷◌, ◌++◌, Option, none, some, Bool, true, false, Text, codes, arith,
}

-- An error value of another crate, known by its `Display` text, which is all that is used of it.
abbrev pub Foreign : Type 0
Foreign = Text

pub data Error : Type 0 where
  subxt : Foreign → Error
  join : Foreign → Error
  reqwest : Foreign → Error
  missing_block : Error
  rpc : Foreign → Error
  missing_block_hash_from_cache : ℕ → Error
  missing_block_body : ℕ → Error
  storage : Text → Error
  scale : Foreign → Error
  broad_recv_err : Foreign → Error
  io : Foreign → Error
  toml : Foreign → Error
  config : Text → Error
  slack : Foreign → Error
  app : Text → Error

-- The foreign error types that have a `From` conversion, which `?` applies.
pub data Source : Type 0 where
  subxt_error join_error reqwest_error rpc_error codec_error recv_error io_error : Source
  toml_error slack_client_error : Source

unfoldable pub from : Source → Foreign → Error
from Source.subxt_error err = subxt err
from Source.join_error err = join err
from Source.reqwest_error err = reqwest err
from Source.rpc_error err = rpc err
from Source.codec_error err = scale err
from Source.recv_error err = broad_recv_err err
from Source.io_error err = io err
from Source.toml_error err = toml err
from Source.slack_client_error err = slack err

-- The `#[error("…")]` texts. `display_hash` is the `Display` of `H256`, which is not in src/.
unfoldable pub display : (ℕ → Text) → Error → Text
display display_hash (subxt err) = codes "Subxt error: " ++ err
display display_hash (join err) = codes "Join error: " ++ err
display display_hash (reqwest err) = codes "Reqwest error: " ++ err
display display_hash missing_block = codes "Block missing from backend"
display display_hash (rpc err) = codes "RPC error: " ++ err
display display_hash (missing_block_hash_from_cache h) = codes "Block Hash missing from Cache"
display display_hash (missing_block_body h) = codes "Block body missing: " ++ display_hash h
display display_hash (storage s) = codes "Storage error: " ++ s
display display_hash (scale err) = codes "Scale error: " ++ err
display display_hash (broad_recv_err err) = codes "Broadcast Receive error: " ++ err
display display_hash (io err) = codes "Io error: " ++ err
display display_hash (toml err) = codes "Toml error: " ++ err
display display_hash (config s) = codes "Config error: " ++ s
display display_hash (slack err) = codes "Slack error: " ++ err
display display_hash (app s) = codes "Application error: " ++ s

-- How a piece of code ends. `panic` is an `expect`, an `assert!` or a checked overflow (the release
-- profile has `overflow-checks = true`). `running` means that the code has not come to an end: it
-- waits for its next input, or the fuel that stands for its rounds is used up.
pub data Exec {ℓ} (A : Type ℓ) : Type ℓ where
  ok : A → Exec A
  err : Error → Exec A
  panic : Exec A
  running : Exec A

infixl 5 ◌>>=◌ ◌>>◌
abbrev pub ◌>>=◌ {ℓ κ} : {A : Type ℓ} {B : Type κ} → Exec A → (A → Exec B) → Exec B
ok a >>= f = f a
err e >>= f = err e
panic >>= f = panic
running >>= f = running

abbrev pub ◌>>◌ {ℓ} : {B : Type ℓ} → Exec (Unit {0}) → Exec B → Exec B
m >> k = m >>= λ _. k

-- `.ok_or(e)?`.
abbrev pub ok_or {ℓ} : {A : Type ℓ} → Option A → Error → Exec A
ok_or (some a) e = ok a
ok_or none e = err e

-- `.expect(…)`.
abbrev pub expect {ℓ} : {A : Type ℓ} → Option A → Exec A
expect (some a) = ok a
expect none = panic

-- `assert!`.
abbrev pub assert : Bool → Exec (Unit {0})
assert true = ok tt
assert false = panic

-- A call into another crate: its value, or an error that `?` converts.
pub data Call {ℓ} (A : Type ℓ) : Type ℓ where
  done : A → Call A
  failed : Foreign → Call A

-- `call?`.
abbrev pub try {ℓ} : {A : Type ℓ} → Source → Call A → Exec A
try s (done a) = ok a
try s (failed e) = err (from s e)

-- `call.expect(…)`.
abbrev pub expect_done {ℓ} : {A : Type ℓ} → Call A → Exec A
expect_done (done a) = ok a
expect_done (failed e) = panic

-- Running `f` on each item in order, to the first failure: `try_collect` over an ordered stream.
unfoldable pub traverse {ℓ κ} : {A : Type ℓ} {B : Type κ} → (A → Exec B) → List A → Exec (List B)
traverse f [] = ok []
traverse f (x ∷ xs) = do y ← f x; ys ← traverse f xs; ok (y ∷ ys)

-- If a chain of two parts returns a value, the first part returned one that leads to it.
pub >>=-eq-ok {ℓ κ} :
    {A : Type ℓ} {B : Type κ} (first : Exec A) (rest : A → Exec B) {result : B}
    → (first >>= rest) ≡ ok result
    → (x : A) × (first ≡ ok x) × (rest x ≡ ok result)
>>=-eq-ok panic rest returned = ground arith
>>=-eq-ok running rest returned = ground arith
>>=-eq-ok (err e) rest returned = ground arith
>>=-eq-ok (ok x) rest returned = (x, refl, returned)

abbrev pub value_or {ℓ} : {A : Type ℓ} → A → Exec A → A
value_or default (ok a) = a
value_or default _ = default

pub ok-injective {ℓ} : {A : Type ℓ} {a b : A} → ok a ≡ ok b → a ≡ b
ok-injective {a = a} e = ap (value_or a) e

pub try-ok {ℓ} : {A : Type ℓ} (s : Source) (c : Call A) {a : A} → try s c ≡ ok a → c ≡ done a
try-ok s (done a) e = ground arith
try-ok s (failed x) e = ground arith

pub expect-ok {ℓ} : {A : Type ℓ} (o : Option A) {a : A} → expect o ≡ ok a → o ≡ some a
expect-ok (some x) e = ground arith
expect-ok none e = ground arith

pub ok_or-some {ℓ} : {A : Type ℓ} (o : Option A) (e : Error) {a : A} → ok_or o e ≡ ok a → o ≡ some a
ok_or-some (some x) e h = ground arith
ok_or-some none e h = ground arith
