-- ===== src/Auth.antt =====
-- internal/auth/session.go: session tokens. HMAC-SHA-256, base64 and JSON are parameters, and so is
-- the derivation of a password's key.
pub mod Tokens
use ai_pub.Base.{
  ℕ, ◌/◌, Bool, true, false, not, ◌&&◌, ◌||◌, String, Option, none, some, List, [], ◌∷◌, ◌==◌, leb,
  nat_eq, ltb, concat, if◌then◌else◌,
}
use ai_pub.Strings.{split}
use ai_pub.Domain.{ℤ, pos, negsuc}

pub record Claims : Type 0 where
  pub subject : String
  pub username : String
  pub role : String
  pub session_version : ℤ
  pub expires_at : ℤ

-- The functions of other packages that tokens are made with.
pub record Codec : Type 0 where
  pub mac : String → String → String
  pub encode : String → String
  pub decode : String → Option String
  pub marshal : Claims → Option String
  pub unmarshal : String → Option Claims

unfoldable pub header : Codec → String
header c = c.encode "{\"alg\":\"HS256\",\"typ\":\"JWT\"}"

unfoldable pub unsigned : String → String → String
unsigned head payload = concat (head ∷ "." ∷ payload ∷ [])

unfoldable pub sign_payload : Codec → String → Option String → Option String
unfolding header unsigned
sign_payload c secret none = none
sign_payload c secret (some payload) =
    let text = unsigned (header c) (c.encode payload) in
    some (concat (text ∷ "." ∷ c.encode (c.mac secret text) ∷ []))

-- Sign
unfoldable pub sign : Codec → String → Claims → Option String
unfolding sign_payload
sign c secret claims = sign_payload c secret (c.marshal claims)

-- `claims.ExpiresAt <= now.Unix()`, with the time in milliseconds
unfoldable pub is_over : ℤ → ℕ → Bool
is_over (pos n) now = leb n (now / 1000)
is_over (negsuc n) now = true

unfoldable pub current_claims : ℕ → Option Claims → Option Claims
unfolding is_over
current_claims now none = none
current_claims now (some claims) =
    if claims.subject == "" || is_over claims.expires_at now then none else some claims

unfoldable pub read_payload : Codec → ℕ → Option String → Option Claims
unfolding current_claims
read_payload c now none = none
read_payload c now (some payload) = current_claims now (c.unmarshal payload)

unfoldable pub check_mac : Codec → String → String → String → ℕ → Option String → Option Claims
unfolding unsigned read_payload
check_mac c secret head payload now none = none
check_mac c secret head payload now (some provided) =
    if provided == c.mac secret (unsigned head payload)
    then read_payload c now (c.decode payload)
    else none

unfoldable pub parse_parts : Codec → String → ℕ → List String → Option Claims
unfolding check_mac
parse_parts c secret now (head ∷ (payload ∷ (signature ∷ []))) =
    check_mac c secret head payload now (c.decode signature)
parse_parts c secret now _ = none

-- Parse; every error is the same text.
unfoldable pub parse : Codec → String → String → ℕ → Option Claims
unfolding parse_parts
parse c secret token now = parse_parts c secret now (split token b'.')

-- What passwords are checked with: PBKDF2, `fmt.Sscanf` of a number, and base64 without padding.
pub record Passwords : Type 0 where
  pub derive : String → String → ℕ → ℕ → Option String
  pub scan_number : String → Option ℤ
  pub decode : String → Option String
  pub size : String → ℕ

verify_key : Passwords → String → ℕ → Option String → Option String → Bool
verify_key p password iterations none want = false
verify_key p password iterations (some salt) none = false
verify_key p password iterations (some salt) (some want) =
    elim (p.derive password salt iterations (p.size want)) [ none ↦ false | some got ↦ got == want ]

verify_parts : Passwords → String → List String → Bool
unfolding verify_key
verify_parts p password (scheme ∷ (count ∷ (salt ∷ (key ∷ [])))) =
    scheme == "pbkdf2-sha256" && elim (p.scan_number count) [
      | some (pos n) ↦ ltb 0 n && verify_key p password n (p.decode salt) (p.decode key)
      | _ ↦ false
    ]
verify_parts p password _ = false

-- VerifyPassword
unfoldable pub verify_password : Passwords → String → String → Bool
unfolding verify_parts
verify_password p encoded password = verify_parts p password (split encoded b'$')
