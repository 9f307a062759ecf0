-- ===== src/Web/Auth/Granted.antt =====
-- Who is let in.
use tttt.Base.{
  ℕ, ◌≡◌, ◌↔◌, ◌⊎◌, inl, inr, refl, Bool, true, false, ◌||◌, Option, none, some, List, [], ◌∷◌,
  ◌++◌, length, ◌==◌, arith, ap, sym, ◌∙◌, Bool-cases,
}
use tttt.Base.Text.{Text, codes, strip_prefix, strip_prefix-append}
use tttt.Base.Map
use mathlib.Core.Path.{subst}
use tttt.Web.Auth
use tttt.Web.Auth.{Crypto, Auth, Htpasswd, required, is_some}

-- The comparison in constant time is equality, and different texts have different bytes.
pub record Compares (C : Crypto) : Type 0 where
  pub ct_eq_iff : (a b : List ℕ) → length a ≡ length b → (C.ct_eq a b ≡ true) ↔ (a ≡ b)
  pub as_bytes_injective : (s t : Text) → C.as_bytes s ≡ C.as_bytes t → s ≡ t

strip_prefix-some : (p s r : Text) → strip_prefix p s ≡ some r → s ≡ p ++ r
unfolding strip_prefix
strip_prefix-some [] s r h = ground arith
strip_prefix-some (a ∷ p) [] r h = absurd (ground arith)
strip_prefix-some (a ∷ p) (c ∷ s) r h = ground (arith, strip_prefix-some p s r)

module _ (C : Crypto) (K : Compares C) where
  pub constant_time_eq_bytes_iff :
      (a b : List ℕ) → (Auth.constant_time_eq_bytes C a b ≡ true) ↔ (a ≡ b)
  unfolding Auth.constant_time_eq_bytes
  constant_time_eq_bytes_iff a b = elim (Bool-cases (length a == length b)) [
    | inl same ↦ rw same (K.ct_eq_iff a b (ground arith))
    | inr other ↦ rw other (
      (λ h. absurd (ground arith)),
      λ h. let size : length a ≡ length b = ap length h in absurd (ground arith),
    )
  ]

  pub constant_time_eq_str_iff : (s t : Text) → (Auth.constant_time_eq_str C s t ≡ true) ↔ (s ≡ t)
  unfolding Auth.constant_time_eq_str
  constant_time_eq_str_iff s t =
      let k = constant_time_eq_bytes_iff (C.as_bytes s) (C.as_bytes t) in
      ((λ h. K.as_bytes_injective s t (k.0 h)), λ h. k.1 (ap C.as_bytes h))

  -- A text in the header behind a scheme.
  abbrev Sent : Text → Option Text → Text → Type 0
  Sent scheme authorization t = authorization ≡ some (scheme ++ t)

  -- The token, in the query or as a bearer's.
  abbrev pub HasToken : Option Text → List (Text × Text) → Option Text → Type 0
  HasToken token query authorization =
      (tok : Text) × (token ≡ some tok)
      × ((Map.get (codes "token") query ≡ some tok) ⊎ Sent (codes "Bearer ") authorization tok)

  -- A user's name and password that the file accepts.
  abbrev pub Accepts : Htpasswd → Text → Type 0
  Accepts h b64 =
      (user : Text) × (password : Text) × (Auth.decode_basic C b64 ≡ some (user, password))
      × (Auth.verify C h user password ≡ true)

  abbrev pub HasPassword : Option Htpasswd → List (Text × Text) → Option Text → Type 0
  HasPassword htpasswd query authorization =
      (h : Htpasswd) × (b64 : Text) × (htpasswd ≡ some h)
      × (Sent (codes "Basic ") authorization b64 ⊎ (Map.get (codes "auth") query ≡ some b64))
      × Accepts h b64

  passes_iff :
      (p : Text → Bool) (o : Option Text)
      → (Auth.passes C p o ≡ true) ↔ ((t : Text) × (o ≡ some t) × (p t ≡ true))
  passes_iff p none = ((λ h. absurd (ground arith)), λ (t, h, k). absurd (ground arith))
  passes_iff p (some s) =
      ((λ h. (s, refl, h)), λ (t, h, k). let eq : s ≡ t = ground arith in ap p eq ∙ k)

  stripped_iff :
      (scheme : Text) (o : Option Text) (t : Text)
      → (Auth.stripped C scheme o ≡ some t) ↔ Sent scheme o t
  stripped_iff scheme none t = ((λ h. absurd (ground arith)), λ h. absurd (ground arith))
  stripped_iff scheme (some s) t = (
    (λ h. ap some (strip_prefix-some scheme s t h)),
    λ h.
        let eq : s ≡ scheme ++ t = ground arith in
        ap (strip_prefix scheme) eq ∙ strip_prefix-append scheme t,
  )

  verified_iff :
      (h : Htpasswd) (o : Option (Text × Text))
      → (Auth.verified C h o ≡ true)
        ↔ ((u : Text) × (p : Text) × (o ≡ some (u, p)) × (Auth.verify C h u p ≡ true))
  verified_iff h none = ((λ k. absurd (ground arith)), λ (u, p, k, v). absurd (ground arith))
  verified_iff h (some (u, p)) =
      ((λ k. (u, p, refl, k)), λ (u', p', k, v). ap (Auth.verified C h) k ∙ v)

  or_iff : (a b : Bool) → ((a || b) ≡ true) ↔ ((a ≡ true) ⊎ (b ≡ true))
  or_iff a b = ground arith

  check_token_iff :
      (token : Option Text) (query : List (Text × Text)) (authorization : Option Text)
      → (Auth.check_token C token query authorization ≡ true) ↔ HasToken token query authorization
  unfolding Auth.check_token
  check_token_iff none query authorization =
      ((λ h. absurd (ground arith)), λ (tok, h, k). absurd (ground arith))
  check_token_iff (some tok) query authorization = (granted, present)
    where
      asked : Option Text
      asked = Map.get (codes "token") query

      bearer : Option Text
      bearer = Auth.stripped C (codes "Bearer ") authorization

      same : Text → Bool
      same t = Auth.constant_time_eq_str C t tok

      granted :
          (Auth.passes C same asked || Auth.passes C same bearer) ≡ true
          → HasToken (some tok) query authorization
      granted h = elim ((or_iff _ _).0 h) [
        | inl q ↦
            let (t, k, e) = (passes_iff same asked).0 q in
            (tok, refl, inl (k ∙ ap some ((constant_time_eq_str_iff t tok).0 e)))
        | inr b ↦
            let (t, k, e) = (passes_iff same bearer).0 b in
            (
              tok,
              refl,
              inr (
                  (stripped_iff (codes "Bearer ") authorization tok).0
                    (k ∙ ap some ((constant_time_eq_str_iff t tok).0 e))),
            )
      ]

      present :
          HasToken (some tok) query authorization
          → (Auth.passes C same asked || Auth.passes C same bearer) ≡ true
      present (t, h, inl k) =
          let eq : tok ≡ t = ground arith in
          (or_iff _ _).1
            (inl ((passes_iff same asked).1 (t, k, (constant_time_eq_str_iff t tok).1 (sym eq))))
      present (t, h, inr k) =
          let eq : tok ≡ t = ground arith in
          (or_iff _ _).1 (
            inr (
              (passes_iff same bearer).1 (
                t,
                (stripped_iff (codes "Bearer ") authorization t).1 k,
                (constant_time_eq_str_iff t tok).1 (sym eq),
              )))

  check_password_iff :
      (htpasswd : Option Htpasswd) (query : List (Text × Text)) (authorization : Option Text)
      → (Auth.check_password C htpasswd query authorization ≡ true)
        ↔ HasPassword htpasswd query authorization
  unfolding Auth.check_password
  check_password_iff none query authorization =
      ((λ h. absurd (ground arith)), λ (u, b, h, k, acc). absurd (ground arith))
  check_password_iff (some u) query authorization = (granted, present)
    where
      asked : Option Text
      asked = Map.get (codes "auth") query

      basic : Option Text
      basic = Auth.stripped C (codes "Basic ") authorization

      good : Text → Bool
      good t = Auth.verified C u (Auth.decode_basic C t)

      granted :
          (Auth.passes C good basic || Auth.passes C good asked) ≡ true
          → HasPassword (some u) query authorization
      granted h = elim ((or_iff _ _).0 h) [
        | inl b ↦
            let (t, k, e) = (passes_iff good basic).0 b in
            (
              u,
              t,
              refl,
              inl ((stripped_iff (codes "Basic ") authorization t).0 k),
              (verified_iff u (Auth.decode_basic C t)).0 e,
            )
        | inr q ↦
            let (t, k, e) = (passes_iff good asked).0 q in
            (u, t, refl, inr k, (verified_iff u (Auth.decode_basic C t)).0 e)
      ]

      accepted : (t : Text) (v : Htpasswd) → some u ≡ some v → Accepts v t → good t ≡ true
      accepted t v h k =
          let eq : v ≡ u = ground arith in
          (verified_iff u (Auth.decode_basic C t)).1 (subst (λ x. Accepts x t) eq k)

      present :
          HasPassword (some u) query authorization
          → (Auth.passes C good basic || Auth.passes C good asked) ≡ true
      present (v, t, h, inl k, acc) = (or_iff _ _).1 (
          inl (
            (passes_iff good basic).1
              (t, (stripped_iff (codes "Basic ") authorization t).1 k, accepted t v h acc)))
      present (v, t, h, inr k, acc) =
          (or_iff _ _).1 (inr ((passes_iff good asked).1 (t, k, accepted t v h acc)))

  -- A request is let in exactly if nothing is required, or it carries the token, in the query or as
  -- a bearer's, or it carries a name and a password, in the header or in the query, that the
  -- password file accepts; with both configured either will do. The comparison in constant time is
  -- equality.
  pub check_request_iff :
      (auth : Auth.Auth) (query : List (Text × Text)) (authorization : Option Text)
      → (Auth.check_request C auth query authorization ≡ true) ↔ (
          (required auth ≡ false)
          ⊎ HasToken auth.token query authorization
          ⊎ HasPassword auth.htpasswd query authorization)
  unfolding Auth.check_request
  check_request_iff auth query authorization = elim (Bool-cases (required auth)) [
    | inr open_to_all ↦ rw open_to_all ((λ h. inl refl), λ h. refl)
    | inl guarded ↦ rw guarded (
      (λ h. elim ((or_iff _ _).0 h) [
        | inl t ↦ inr (inl ((check_token_iff auth.token query authorization).0 t))
        | inr p ↦ inr (inr ((check_password_iff auth.htpasswd query authorization).0 p))
      ]),
      λ h. elim h [
        | inl none_needed ↦ absurd (ground arith)
        | inr (inl t) ↦ (or_iff _ _).1 (inl ((check_token_iff auth.token query authorization).1 t))
        | inr (inr p) ↦
            (or_iff _ _).1 (inr ((check_password_iff auth.htpasswd query authorization).1 p))
      ],
    )
  ]
