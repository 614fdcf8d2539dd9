-- ===== src/Platform.antt =====
-- What the routes and the tools take from outside the repository: PyNaCl's ed25519 keys, `hashlib`,
-- the reading of JSON text, and the texts and integer parts of numbers that are not integers. A model
-- takes a `Platform` as an argument, and nothing is assumed of it but where a theorem asks for
-- `HasEd25519`.
pub mod Toy
use netplex_support.Prelude.{String, Bool, Option, none, some, ◌≡◌, List, zero}
use netplex_support.Prelude.Text.{non_empty}
use netplex_support.Prelude.Int.{ℤ, decimal_ℤ}
use netplex_support.Json.{Value, null, bool, int, float, str, arr, obj, nil, cons, end, member}
use netplex_support.Base64.{Bytes, AreBytes}

-- What VerifyKey(key).verify(message, signature) does.
pub data Outcome : Type 0 where
  valid : Outcome
  bad_signature : Outcome
  raises : String → Outcome

pub record Platform : Type 0 where
  -- whether `import nacl` succeeds
  pub has_nacl : Bool
  -- VerifyKey(key).verify(message, signature)
  pub verify : Bytes → Bytes → Bytes → Outcome
  -- bytes(SigningKey(seed).verify_key), `none` where the constructor raises
  pub verify_key : Bytes → Option Bytes
  -- SigningKey(seed).sign(message).signature
  pub sign : Bytes → Bytes → Bytes
  -- hashlib.sha256(data).hexdigest()
  pub sha256_hexdigest : Bytes → String
  -- json.loads(text), `none` where it raises ValueError
  pub loads : String → Option Value
  -- json.dumps(x) and str(x) of a float x, which is held by its text
  pub float_text : String → String
  pub float_str : String → String
  -- bool(x) of a float x, and x == y of numbers of which one is a float
  pub float_truth : String → Bool
  pub float_equal : Value → Value → Bool
  -- int(x) of a float x and of a text x, `none` where it raises
  pub float_int : String → Option ℤ
  pub text_int : String → Option ℤ
  -- repr(x), which is str(x) of a list or a dict x
  pub repr : Value → String
  -- the text of the exception that VerifyKey(key), or else reading such a `sig` member, raises
  pub sig_error : Bytes → Option Value → String

-- str(v)
unfoldable pub text_of : Platform → Value → String
unfolding decimal_ℤ
text_of p null = "None"
text_of p (bool Bool.true) = "True"
text_of p (bool Bool.false) = "False"
text_of p (int n) = decimal_ℤ n
text_of p (float s) = p.float_str s
text_of p (str s) = s
text_of p (arr xs) = p.repr (arr xs)
text_of p (obj ms) = p.repr (obj ms)

-- bool(v)
unfoldable pub truth : Platform → Value → Bool
truth p null = Bool.false
truth p (bool b) = b
truth p (int (ℤ.pos zero)) = Bool.false
truth p (int n) = Bool.true
truth p (float s) = p.float_truth s
truth p (str s) = non_empty s
truth p (arr nil) = Bool.false
truth p (arr (cons v vs)) = Bool.true
truth p (obj end) = Bool.false
truth p (obj (member k v ms)) = Bool.true

-- int(v), `none` where it raises
unfoldable pub int_of : Platform → Value → Option ℤ
int_of p null = none
int_of p (bool Bool.true) = some (ℤ.pos 1)
int_of p (bool Bool.false) = some (ℤ.pos 0)
int_of p (int n) = some n
int_of p (float s) = p.float_int s
int_of p (str s) = p.text_int s
int_of p (arr xs) = none
int_of p (obj ms) = none

-- ed25519: a signature made with a seed passes under the public key of that seed, and signatures
-- are bytes.
pub record HasEd25519 (p : Platform) : Type 0 where
  pub available : p.has_nacl ≡ Bool.true
  pub sign_bytes : (seed message : Bytes) → AreBytes (p.sign seed message)
  pub verify_sign :
      (seed key message : Bytes)
      → p.verify_key seed ≡ some key
      → p.verify key message (p.sign seed message) ≡ valid
