-- ===== src/Auth/Sessions/Signed.antt =====
-- src/auth/sessions.py: what a cookie proves, and that an issued cookie is accepted until it expires.
use Prim.Native.String.append
use eu_ai_act_compliance.Prelude.{
  String, Bool, true, false, [], ◌∷◌, Option, none, some, is_nonempty, ◌≡◌, refl, ap, sym, ◌∙◌,
  Bool-cases, Option-cases, inl, inr,
}
use eu_ai_act_compliance.Result.{type_error, ok, err, ◌>>=◌, >>=-eq-ok}
use eu_ai_act_compliance.Builtins.Decimal.{ℤ, add_ℕ, int_of}
use eu_ai_act_compliance.Builtins.Decimal.RoundTrip.{int_of-str_int, str_int-Lacks}
use eu_ai_act_compliance.Builtins.Digest.{is_ascii, compare_digest}
use eu_ai_act_compliance.Builtins.Digest.Ascii.{
  compare_digest_self, compare_digest-true, compare_digest-not_ascii,
}
use eu_ai_act_compliance.Builtins.Hex.{hex}
use eu_ai_act_compliance.Builtins.Hex.RoundTrip.{hex-Lacks, hex-is_ascii}
use eu_ai_act_compliance.Builtins.Split.{Lacks, rsplit, three_of}
use eu_ai_act_compliance.Builtins.Split.Parts.{rsplit_two, three_of-rsplit}
use eu_ai_act_compliance.Auth.Sessions.{
  ClockTime, before, Signing, secret, sign, bar, issue_session, unexpired, accept, verified,
  decoded, read_session,
}

module _ (signing : Signing) (session_secret : Option String) where
  sign-eq-ok :
      (payload : String) {tag : String}
      → sign signing session_secret payload ≡ ok tag
      → (key : String) × (session_secret ≡ some key)
        × (is_nonempty key ≡ true)
        × (tag ≡ hex (signing.hmac_sha256 key payload))
  unfolding sign secret
  sign-eq-ok payload h = elim (Option-cases session_secret) [
    | inl e ↦ absurd (let z = rw e at h in cc)
    | inr (key, e) ↦ elim (Bool-cases (is_nonempty key)) [
      | inl q ↦ (key, e, q, (let z = rw (e, q) at h in cc))
      | inr q ↦ absurd (let z = rw (e, q) at h in cc)
    ]
  ]

  sign-signed :
      (payload : String) {tag : String}
      → sign signing session_secret payload ≡ ok tag
      → (is_ascii tag ≡ true) × Lacks "|" tag
  sign-signed payload h =
      let (key, found, nonempty, e) = sign-eq-ok payload h in
      let digest = signing.digest-Bytes key payload in
      (rw e (hex-is_ascii _ digest), rw e (hex-Lacks "|" _ refl digest))

  verified-signed :
      (now : ClockTime) (user_id expiry tag : String)
      → sign signing session_secret (bar signing session_secret user_id expiry) ≡ ok tag
      → verified signing session_secret now (some (user_id, expiry, tag))
        ≡ ok (unexpired signing session_secret now user_id (int_of signing.unicode_digit expiry))
  unfolding verified accept
  verified-signed now user_id expiry tag h =
      rw (h, compare_digest_self tag (sign-signed _ h).0) refl

  bar-nonempty : (a b : String) → is_nonempty (bar signing session_secret a b) ≡ true
  unfolding bar
  bar-nonempty String.[] b = rw (append.nil (String.◌∷◌ "|" b)) refl
  bar-nonempty (String.◌∷◌ c a) b = rw (append.cons c a (String.◌∷◌ "|" b)) refl

  module _ (issued now : ClockTime) (user_id : String) (max_age_seconds : ℤ) {cookie : String} where
    -- A cookie that was issued is read as the user it was issued to, as long as its expiry does not lie
    -- before the clock.
    pub read_session-issue_session :
        issue_session signing session_secret issued user_id max_age_seconds ≡ ok cookie
        → before (add_ℕ max_age_seconds issued.seconds) now ≡ false
        → read_session signing session_secret now (some cookie) ≡ ok (some user_id)
    unfolding issue_session read_session decoded unexpired
    read_session-issue_session h fresh =
        let (expiry, printed, h') = >>=-eq-ok _ _ h in
        let (tag, signed, last) = >>=-eq-ok _ _ h' in
        let token = bar signing session_secret (bar signing session_secret user_id expiry) tag in
        let e : signing.urlsafe_b64encode token ≡ cookie = cc in
        let nonempty = signing.encode-nonempty token (bar-nonempty _ tag) in
        let parts : rsplit "|" token 2 ≡ user_id ∷ expiry ∷ tag ∷ [] =
          unfold bar in
          rsplit_two "|" user_id expiry tag (str_int-Lacks "|" refl _ printed)
            (sign-signed _ signed).1 in
        rw (← e, nonempty, signing.decode-encode token, parts)
          (unfold three_of in
            verified-signed now user_id expiry tag signed
            ∙ rw (int_of-str_int signing.unicode_digit _ printed, fresh) refl)

  -- What a cookie proves.
  pub record Proven (now : ClockTime) (cookie : Option String) (user_id : String) : Type 0 where
    pub cookie_value : String
    pub expiry_str : String
    pub tag : String
    pub key : String
    pub expiry : ℤ
    pub given : cookie ≡ some cookie_value
    pub token :
        signing.urlsafe_b64decode cookie_value
        ≡ some (bar signing session_secret (bar signing session_secret user_id expiry_str) tag)
    pub configured : session_secret ≡ some key
    pub signed : tag ≡ hex (signing.hmac_sha256 key (bar signing session_secret user_id expiry_str))
    pub reads : int_of signing.unicode_digit expiry_str ≡ some expiry
    pub fresh : before expiry now ≡ false

  unexpired-eq-some :
      (now : ClockTime) (id : String) (o : Option ℤ) {user_id : String}
      → unexpired signing session_secret now id o ≡ some user_id
      → (expiry : ℤ) × (o ≡ some expiry) × (before expiry now ≡ false) × (id ≡ user_id)
  unfolding unexpired
  unexpired-eq-some now id none h = cc
  unexpired-eq-some now id (some expiry) h = elim (Bool-cases (before expiry now)) [
    | inl q ↦ absurd (let z = rw q at h in cc)
    | inr q ↦ (expiry, refl, q, (let z = rw q at h in cc))
  ]

  accept-eq-some :
      (now : ClockTime) (id expiry_str : String) (same : Bool) {user_id : String}
      → accept signing session_secret now id expiry_str same ≡ ok (some user_id)
      → (same ≡ true)
        × (unexpired signing session_secret now id (int_of signing.unicode_digit expiry_str)
            ≡ some user_id)
  unfolding accept
  accept-eq-some now id expiry_str true h = (refl, cc)
  accept-eq-some now id expiry_str false h = cc

  verified-eq-some :
      (now : ClockTime) (id expiry_str provided : String) {user_id : String}
      → verified signing session_secret now (some (id, expiry_str, provided)) ≡ ok (some user_id)
      → (sign signing session_secret (bar signing session_secret id expiry_str) ≡ ok provided)
        × (unexpired signing session_secret now id (int_of signing.unicode_digit expiry_str)
            ≡ some user_id)
  unfolding verified
  verified-eq-some now id expiry_str provided h =
      let (tag, signed, h') =
        >>=-eq-ok (sign signing session_secret (bar signing session_secret id expiry_str))
          (λ tag. compare_digest provided tag >>= accept signing session_secret now id expiry_str)
          h in
      let (same, compared, last) =
        >>=-eq-ok (compare_digest provided tag) (accept signing session_secret now id expiry_str)
          h' in
      let (q, kept) = accept-eq-some now id expiry_str same last in
      let e = compare_digest-true provided tag (compared ∙ ap (λ b. ok b) q) in
      (signed ∙ ap (λ t. ok t) (sym e), kept)

  verified-none :
      (now : ClockTime) {user_id : String}
      → ¬ (verified signing session_secret now none ≡ ok (some user_id))
  unfolding verified
  verified-none now h = cc

  -- A user id that is read from a cookie stands in it with an expiry that does not lie before the clock,
  -- and with the tag of the two under the configured secret.
  pub read_session-Proven :
      (now : ClockTime) (cookie : Option String) (user_id : String)
      → read_session signing session_secret now cookie ≡ ok (some user_id)
      → Proven now cookie user_id
  unfolding read_session decoded bar
  read_session-Proven now none user_id h = cc
  read_session-Proven now (some value) user_id h = elim (Bool-cases (is_nonempty value)) [
    | inr q ↦ absurd (let z = rw q at h in cc)
    | inl q ↦
        let h1 = rw q at h in
        elim (Option-cases (signing.urlsafe_b64decode value)) [
          | inl e ↦ absurd (let z = rw e at h1 in cc)
          | inr (text, e) ↦
              let h2 = rw e at h1 in
              elim (Option-cases (three_of (rsplit "|" text 2))) [
                | inl k ↦ absurd (verified-none now (rw k at h2))
                | inr ((id, expiry_str, provided), k) ↦
                    let (signed, kept) = verified-eq-some now id expiry_str provided (rw k at h2) in
                    let (expiry, reads, fresh, same) = unexpired-eq-some now id _ kept in
                    let (key, found, nonempty, tag) = sign-eq-ok _ signed in
                    record {
                      cookie_value = value;
                      expiry_str = expiry_str;
                      tag = provided;
                      key = key;
                      expiry = expiry;
                      given = refl;
                      token =
                          rw (← same)
                            (e ∙ ap some (three_of-rsplit "|" text id expiry_str provided k));
                      configured = found;
                      signed = rw (← same) tag;
                      reads = reads;
                      fresh = fresh;
                    }
              ]
        ]
  ]

  -- A cookie whose tag holds a character that is not ASCII is not turned down: where the secret is
  -- configured, reading it raises a TypeError.
  pub read_session-not_ascii :
      (now : ClockTime) (value user_id expiry tag key : String)
      → is_nonempty value ≡ true
      → signing.urlsafe_b64decode value
        ≡ some (bar signing session_secret (bar signing session_secret user_id expiry) tag)
      → Lacks "|" expiry
      → Lacks "|" tag
      → session_secret ≡ some key
      → is_nonempty key ≡ true
      → is_ascii tag ≡ false
      → read_session signing session_secret now (some value)
        ≡ err (type_error "comparing strings with non-ASCII characters is not supported")
  unfolding read_session decoded verified accept bar sign secret three_of
  read_session-not_ascii now value user_id expiry tag key nonempty text he ht found has_key odd =
      rw
        (
          nonempty,
          text,
          rsplit_two "|" user_id expiry tag he ht,
          found,
          has_key,
          compare_digest-not_ascii tag _ odd,
        )
        refl
