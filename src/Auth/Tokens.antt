-- ===== src/Auth/Tokens.antt =====
-- internal/auth/session.go: Sign and Parse together.
use Prim.Native.Char.{code}
use Prim.Native.String.{◌++◌ as append}
use text.Mathlib.TextLemmas.{nil-append, cons-append, append-nil, append_assoc}
use ai_pub.Base.{
  ◌≡◌, refl, ap, ◌∙◌, ℕ, Bool, true, false, not, ◌&&◌, String, some, [], ◌∷◌, ◌==◌, arith, nat_eq,
  eq_refl, concat,
}
use ai_pub.Strings.{split}
use ai_pub.Auth.{Claims, Codec, header, unsigned, sign, is_over, parse}

-- No character of the text is that one.
unfoldable pub lacks : String → ℕ → Bool
lacks String.[] separator = true
lacks (String.◌∷◌ c s) separator = not (nat_eq (code c) separator) && lacks s separator

split-lacks : (s : String) (k : ℕ) → lacks s k ≡ true → split s k ≡ s ∷ []
unfolding lacks split
split-lacks String.[] k h = refl
split-lacks (String.◌∷◌ c s) k h =
    let other : nat_eq (code c) k ≡ false = ground arith in
    rw (other, split-lacks s k (ground arith)) refl

dot-append : (rest : String) → append "." rest ≡ String.◌∷◌ "." rest
dot-append rest = cons-append "." "" rest ∙ ap (λ (t : String). String.◌∷◌ "." t) (nil-append rest)

split-dot : (rest : String) → split (append "." rest) b'.' ≡ "" ∷ split rest b'.'
unfolding split
split-dot rest = rw (dot-append rest) refl

split-cut :
    (s rest : String)
    → lacks s b'.' ≡ true
    → split (append s (append "." rest)) b'.' ≡ s ∷ split rest b'.'
unfolding lacks split
split-cut String.[] rest h = rw (nil-append (append "." rest)) (split-dot rest)
split-cut (String.◌∷◌ c s) rest h =
    let other : nat_eq (code c) b'.' ≡ false = ground arith in
    rw (cons-append c s (append "." rest), other, split-cut s rest (ground arith)) refl

-- What is used of base64 without padding: it decodes what it encoded, and makes no full stop.
pub record IsPlain (c : Codec) : Type 0 where
  pub decodes : (s : String) → c.decode (c.encode s) ≡ some s
  pub dotless : (s : String) → lacks (c.encode s) b'.' ≡ true

module _ (c : Codec) (plain : IsPlain c) (secret : String) where
  token-parts :
      (head payload signature : String)
      → lacks head b'.' ≡ true
      → lacks payload b'.' ≡ true
      → lacks signature b'.' ≡ true
      → split (concat (unsigned head payload ∷ "." ∷ signature ∷ [])) b'.'
        ≡ head ∷ payload ∷ signature ∷ []
  unfolding unsigned
  token-parts head payload signature h p s =
      rw
        (
          append-nil payload,
          append-nil signature,
          append_assoc head (append "." payload) (append "." signature),
          append_assoc "." payload (append "." signature),
          split-cut head _ h,
          split-cut payload _ p,
          split-lacks signature b'.' s,
        )
        refl

-- A token that Sign made with a secret is read back by Parse with that secret: it gives the claims
-- that were signed, if they name a subject and are not over. Encoding is plain, and the claims are
-- the ones that their JSON text is decoded to.
pub parse-sign :
    (c : Codec)
    → IsPlain c
    → (secret token payload : String) (claims : Claims) (now : ℕ) → c.marshal claims ≡ some payload
    → c.unmarshal payload ≡ some claims
    → sign c secret claims ≡ some token
    → (claims.subject == "") ≡ false
    → is_over claims.expires_at now ≡ false
    → parse c secret token now ≡ some claims
unfolding parse sign header
parse-sign c plain secret token payload claims now text back signed named current =
    let head = header c in
    let body = c.encode payload in
    let text_mac = c.mac secret (unsigned head body) in
    let made : some (concat (unsigned head body ∷ "." ∷ c.encode text_mac ∷ [])) ≡ some token =
      rw text at signed in
    let same : token ≡ concat (unsigned head body ∷ "." ∷ c.encode text_mac ∷ []) = cc made in
    rw
      (
        same,
        token-parts c plain secret head body (c.encode text_mac) (plain.dotless _) (plain.dotless _)
            (plain.dotless _),
        plain.decodes text_mac,
        eq_refl text_mac,
        plain.decodes payload,
        back,
        named,
        current,
      )
      refl
