-- ===== src/App/Preflight/Text.antt =====
-- internal/app/release.go: the immutable reference of an OCI image.
use Prim.Native.Char.{code}
use ai_pub.Base.{
  ℕ, Bool, true, false, ◌&&◌, ◌||◌, String, Option, none, some, ◌-◌, ltb, leb, nat_eq,
  if◌then◌else◌,
}

is_hex : ℕ → Bool
is_hex c = (leb b'0' c && leb c b'9') || ((leb b'a' c && leb c b'f') || (leb b'A' c && leb c b'F'))

-- `[0-9a-fA-F]{n}$`
hex_digits : ℕ → String → Bool
unfolding is_hex
hex_digits n String.[] = nat_eq n 0
hex_digits n (String.◌∷◌ c s) = ltb 0 n && (is_hex (code c) && hex_digits (n - 1) s)

-- The rest of a text after its prefix, if it has that.
strip : String → String → Option String
strip String.[] s = some s
strip (String.◌∷◌ p ps) String.[] = none
strip (String.◌∷◌ p ps) (String.◌∷◌ c s) =
    let rest = strip ps s in if nat_eq (code p) (code c) then rest else none

digest_after : Option String → Bool
unfolding hex_digits
digest_after none = false
digest_after (some s) = hex_digits 64 s

-- `[^@]*@sha256:…`, after `seen` characters: the repository has at least one, and no `@`.
digest_from : Bool → String → Bool
unfolding strip digest_after
digest_from seen String.[] = false
digest_from seen (String.◌∷◌ c s) =
    let later = digest_from true s in
    if nat_eq (code c) 64 then seen && digest_after (strip "sha256:" s) else later

-- ociDigestPattern.MatchString
unfoldable pub is_oci_digest : String → Bool
unfolding digest_from
is_oci_digest s = digest_from false s
