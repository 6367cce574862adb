-- ===== src/Examples/Sessions.antt =====
-- The theorems on sessions and on the access to the API, with an encoding that is plain.
use Prim.Native.Char.{Char, code}
use text.Mathlib.TextEquality.{Char-path}
use ai_pub.Base.{
  ◌≡◌, refl, ap, ℕ, Memᴰ, zero, suc, ◌/◌, find_row, ◌∙◌, Keyed, Bool, true, false, String, Option,
  none, some, [], ◌∷◌, inl, inr, Bool-cases, ◌==◌, arith, nat_eq, concat, sym, if◌then◌else◌,
}
use mathlib.Core.List.Memᴰ
use ai_pub.Strings.{split, fields, trim_space}
use ai_pub.Domain.{User, ℤ, ApiKey}
use ai_pub.Database.{Db, KeyRow}
use ai_pub.Action.{ok, pure}
use ai_pub.Action.Ends.{Ends-pure, calm, faulty, Ends}
use ai_pub.Auth.{Claims, Codec, header, unsigned, is_over, sign, parse, verify_password}
use ai_pub.Auth.Tokens.{lacks, IsPlain, parse-sign}
use ai_pub.Http.{written, HttpRequest, Api}
use ai_pub.Http.Access.{admits, api_key_from_bearer}
use ai_pub.Http.Access.Granted.{SameButTimes, Granted, api_key_from_bearer-Granted}
use ai_pub.Repository.Users.{set_user_password, update_user, delete_user}
use ai_pub.Http.Access.Revoked.{
  IsRevoked, set_user_password-IsRevoked, update_user-IsRevoked, delete_user-IsRevoked,
}
use ai_pub.Http.Session.{LoginInput, Session, session_end, claims_of, handle_login}
use ai_pub.Http.Session.Admitted.{
  IsReadable, IsSession, Answered, handle_login-Answered, handle_login-IsSession,
}
use ai_pub.Http.Keys.{handle_create_api_key, is_admin, KeyPatch, handle_patch_api_key}
use ai_pub.Http.Keys.Owned.{OnlyOwned, handle_create_api_key-OnlyOwned}
use ai_pub.Http.Keys.Reduced.{OnlyReduced, handle_patch_api_key-OnlyReduced}
use ai_pub.Examples.{inventory, alice}

-- A full stop is written `d`, any other character after an `x`.
escape : String → String
escape String.[] = ""
escape (String.◌∷◌ c s) =
    let rest = escape s in
    if nat_eq (code c) b'.' then String.◌∷◌ "d" rest else String.◌∷◌ "x" (String.◌∷◌ c rest)

prepend : Char → Option String → Option String
prepend c none = none
prepend c (some s) = some (String.◌∷◌ c s)

unescape : Bool → String → Option String
unfolding prepend
unescape false String.[] = some ""
unescape true String.[] = none
unescape true (String.◌∷◌ c s) = prepend c (unescape false s)
unescape false (String.◌∷◌ c s) =
    let plain = unescape false s in
    let next = unescape true s in if nat_eq (code c) b'd' then prepend "." plain else next

is_dot : (c : Char) → nat_eq (code c) b'.' ≡ true → c ≡ "."
is_dot c h = Char-path c "." (ground arith)

unescape-escape : (s : String) → unescape false (escape s) ≡ some s
unfolding escape unescape prepend
unescape-escape String.[] = refl
unescape-escape (String.◌∷◌ c s) = elim (Bool-cases (nat_eq (code c) b'.')) [
  | inl t ↦ rw (t, unescape-escape s) (ap (λ (x : Char). some (String.◌∷◌ x s)) (sym (is_dot c t)))
  | inr f ↦ rw (f, unescape-escape s) refl
]

escape-lacks : (s : String) → lacks (escape s) b'.' ≡ true
unfolding escape lacks
escape-lacks String.[] = refl
escape-lacks (String.◌∷◌ c s) = elim (Bool-cases (nat_eq (code c) b'.')) [
  | inl t ↦ rw (t, escape-lacks s) refl
  | inr f ↦ rw (f, f, escape-lacks s) refl
]

abbrev signed_in : Claims
signed_in = record {
  subject = "u1";
  username = "alice";
  role = "employee";
  session_version = ℤ.pos 1;
  expires_at = ℤ.pos 90;
}

abbrev plain_codec : Codec
plain_codec = record {
  mac = λ secret text. secret;
  encode = escape;
  decode = unescape false;
  marshal = λ claims. some "alice.u1";
  unmarshal = λ text. some signed_in;
}

plain_codec-IsPlain : IsPlain plain_codec
plain_codec-IsPlain = record { decodes = unescape-escape; dotless = escape-lacks }

abbrev alice_token : String
alice_token =
    concat (unsigned (header plain_codec) (escape "alice.u1") ∷ "." ∷ escape "s3cret" ∷ [])

alice_token-signed : sign plain_codec "s3cret" signed_in ≡ some alice_token
unfolding sign
alice_token-signed = refl

parse-sign_example : parse plain_codec "s3cret" alice_token 5000 ≡ some signed_in
unfolding is_over
parse-sign_example =
    parse-sign plain_codec plain_codec-IsPlain "s3cret" alice_token "alice.u1" signed_in 5000 refl
      refl alice_token-signed refl refl

abbrev service : Api
service = record {
  jwt_secret = "s3cret";
  codec = plain_codec;
  passwords = record {
    derive = λ password salt iterations size. some password;
    scan_number = λ s. none;
    decode = λ s. some s;
    size = λ s. 0;
  };
  hash_password = λ password. pure password;
  hash_secret = λ s. s;
  random_secret = pure "";
  to_lower = λ s. s;
  equal_fold = λ s t. s == t;
  decode_scopes = λ s. some (some (fields s));
  demo_mode = false;
  demo_protected_usernames = "";
}

abbrev deploy_key : KeyRow
deploy_key = record {
  key = record {
    id = "key1";
    name = "ci";
    prefix = "ak_live_0123";
    owner_user_id = "u1";
    scopes = "admin:write";
    expires_at = none;
    enabled = true;
    last_used_at = none;
    created_at = 1;
    updated_at = 1;
  };
  key_hash = "ak_live_0123456789";
  owner_type = "user";
}

abbrev with_key : Db
with_key = record inventory { api_keys = deploy_key ∷ [] }

abbrev by_key : HttpRequest
by_key = record {
  path = "/api/v1/users/u1";
  id = "u1";
  session_cookie = none;
  authorization = "Bearer ak_live_0123456789";
  idempotency_key = "";
  query = λ s. "";
  session_user = none;
  api_key = none;
}

api_key_from_bearer-Granted_example :
    Ends faulty with_key
      (api_key_from_bearer service by_key "admin:write")
      (λ o e.
        SameButTimes with_key e
        × ((key : ApiKey) × (o ≡ some key) × Granted service with_key "admin:write" key))
      (λ _ e. SameButTimes with_key e)
unfolding trim_space
api_key_from_bearer-Granted_example =
    api_key_from_bearer-Granted service by_key "admin:write" with_key refl refl

abbrev reading : Db
reading = record inventory {
  api_keys =
      record deploy_key { key = record (deploy_key.key) { scopes = "deploy:read release:read" } }
      ∷ [];
}

reading-Keyed : Keyed (λ x. x.key.id) reading.api_keys
reading-Keyed x y m n e = Memᴰ.eq_of_singleton m ∙ sym (Memᴰ.eq_of_singleton n)

abbrev by_alice : HttpRequest
by_alice = record by_key { id = "key1"; session_user = some alice }

abbrev fewer_scopes : KeyPatch
fewer_scopes = record { name = none; scopes = some "deploy:read"; enabled = some true }

handle_patch_api_key-OnlyReduced_example :
    Ends faulty reading
      (handle_patch_api_key service by_alice (ok fewer_scopes))
      (λ _ e. OnlyReduced service reading e)
      (λ _ e. OnlyReduced service reading e)
unfolding is_admin
handle_patch_api_key-OnlyReduced_example =
    handle_patch_api_key-OnlyReduced service by_alice alice (ok fewer_scopes) reading refl refl
      reading-Keyed

inventory-Keyed : Keyed (λ x. x.id) inventory.users
inventory-Keyed x y m n e = Memᴰ.eq_of_singleton m ∙ sym (Memᴰ.eq_of_singleton n)

alice-admitted : admits signed_in alice ≡ true
unfolding admits
alice-admitted = refl

set_user_password-IsRevoked_example :
    Ends faulty inventory
      (set_user_password "u1" "pbkdf2-sha256$1$c2FsdA$a2V5")
      (λ _ e. IsRevoked signed_in e.users)
      (λ _ e. e ≡ inventory)
set_user_password-IsRevoked_example =
    set_user_password-IsRevoked signed_in alice "pbkdf2-sha256$1$c2FsdA$a2V5" inventory
      (Memᴰ.head refl) alice-admitted inventory-Keyed

update_user-IsRevoked_example :
    Ends faulty inventory
      (update_user "u1" alice)
      (λ _ e. IsRevoked signed_in e.users)
      (λ _ e. e ≡ inventory)
update_user-IsRevoked_example =
    update_user-IsRevoked signed_in alice alice inventory (Memᴰ.head refl) alice-admitted
      inventory-Keyed

delete_user-IsRevoked_example :
    Ends faulty inventory
      (delete_user "u1")
      (λ _ e. IsRevoked signed_in e.users)
      (λ _ e. e ≡ inventory)
delete_user-IsRevoked_example = delete_user-IsRevoked signed_in alice inventory alice-admitted

-- Twelve hours ahead, in as many characters as the claims have seconds.
tally : ℕ → String
tally zero = ""
tally (suc n) = String.◌∷◌ "x" (tally n)

count : String → ℕ
count String.[] = zero
count (String.◌∷◌ c s) = suc (count s)

count-tally : (n : ℕ) → count (tally n) ≡ n
unfolding tally count
count-tally zero = refl
count-tally (suc n) = ap suc (count-tally n)

write_end : ℤ → String
unfolding tally
write_end (ℤ.pos n) = tally n
write_end (ℤ.negsuc n) = ""

abbrev office : Api
office = record service {
  codec = record plain_codec {
    marshal = λ claims. some (write_end claims.expires_at);
    unmarshal = λ s. some (record signed_in { expires_at = ℤ.pos (count s) });
  };
  passwords = record {
    derive = λ password salt iterations size. some password;
    scan_number = λ s. some (ℤ.pos 1);
    decode = λ s. some s;
    size = λ s. 0;
  };
}

abbrev alice_in : User
alice_in = record alice { password_hash = "pbkdf2-sha256$1$salt$secret" }

abbrev at_work : Db
at_work = record inventory { users = alice_in ∷ [] }

alice-IsReadable :
    (user : User)
    → Memᴰ user at_work.users
    → (now : ℕ) → IsReadable office.codec (claims_of user now)
unfolding claims_of write_end
alice-IsReadable user m now = rw (Memᴰ.eq_of_singleton m) (record {
  text = tally (session_end now / 1000);
  marshals = refl;
  unmarshals =
      ap (λ (n : ℕ). some (record signed_in { expires_at = ℤ.pos n }))
        (count-tally (session_end now / 1000));
})

alice-named : (user : User) → Memᴰ user at_work.users → (user.id == "") ≡ false
alice-named user m = ap (λ (u : User). u.id == "") (Memᴰ.eq_of_singleton m)

abbrev typed : LoginInput
typed = record { username = " alice "; password = "secret" }

office-IsPlain : IsPlain office.codec
office-IsPlain = record { decodes = unescape-escape; dotless = escape-lacks }

handle_login-Answered_example :
    Ends faulty at_work
      (handle_login office by_key (ok typed))
      (λ x e. (e ≡ at_work) × Answered office at_work "secret" x)
      (λ _ _. ⊥)
handle_login-Answered_example =
    handle_login-Answered office by_key typed at_work office-IsPlain alice-IsReadable alice-named

alice-verified : verify_password office.passwords alice_in.password_hash "secret" ≡ true
unfolding verify_password split
alice-verified = refl

alice-found : find_row (λ x. x.username == trim_space " alice ") at_work.users ≡ some alice_in
unfolding find_row trim_space
alice-found = refl

handle_login-IsSession_example :
    Ends calm at_work
      (handle_login office by_key (ok typed))
      (λ x e.
        (e ≡ at_work)
        × ((s : Session) × (x ≡ written 200 s)
            × (s.user ≡ alice_in)
            × IsSession office at_work "secret" s))
      (λ _ _. ⊥)
handle_login-IsSession_example =
    handle_login-IsSession office by_key typed alice_in at_work office-IsPlain alice-IsReadable
      alice-named alice-found refl alice-verified

abbrev strict : Api
strict = record service { decode_scopes = λ s. if s == "" then none else some (some (fields s)) }

handle_create_api_key-OnlyOwned_example :
    Ends faulty inventory
      (handle_create_api_key strict by_alice
        (ok (record (deploy_key.key) { scopes = "deploy:read" })))
      (λ _ e. OnlyOwned strict alice inventory e)
      (λ _ e. OnlyOwned strict alice inventory e)
unfolding is_admin
handle_create_api_key-OnlyOwned_example =
    handle_create_api_key-OnlyOwned strict by_alice alice
      (ok (record (deploy_key.key) { scopes = "deploy:read" })) inventory refl refl refl
      (λ e. Ends-pure _ refl)
