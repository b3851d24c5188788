-- ===== src/Safety/Cover.antt =====
-- Every turn of a conversation is examined, and a flagged turn keeps the request out of the caches.
use ecoroute_ht.Base.{
  ℕ, zero, suc, ◌+◌, ◌≡◌, ap, sym, inl, inr, Bool, true, false, List, [], ◌∷◌, Option, none, some,
  any, arith, Member, Bool-cases, if◌then◌else◌, any-false, String,
}
use ecoroute_ht.Numbers.{Arithmetic}
use ecoroute_ht.Schemas.{RouterClassification, RoutingPolicyConfig}
use ecoroute_ht.Routing.Caching.{exact_cache_eligible, exact-IsReusable}
use ecoroute_ht.Safety.Redact.{Flags, join, redact}
use ecoroute_ht.Safety.Normalize.{
  ChatMessage, Request, Texts, turn, last_user, message_at, is_final, final_text, other_turns,
  request_flags, normalize_request, is_multimodal,
}

-- Every flag of `f` is a flag of `g`.
infix 50 ◌⊑◌
abbrev ◌⊑◌ : Flags → Flags → Type 0
f ⊑ g =
    (f.pii ≡ true → g.pii ≡ true)
    × (f.secrets ≡ true → g.secrets ≡ true)
    × (f.personalized ≡ true → g.personalized ≡ true)
    × (f.uncertain ≡ true → g.uncertain ≡ true)

⊑_refl : (f : Flags) → f ⊑ f
⊑_refl f = (λ h. h, λ h. h, λ h. h, λ h. h)

⊑_trans : (f g h : Flags) → f ⊑ g → g ⊑ h → f ⊑ h
⊑_trans f g h p q = (λ e. q.0 (p.0 e), λ e. q.1 (p.1 e), λ e. q.2 (p.2 e), λ e. q.3 (p.3 e))

⊑-join_left : (f g : Flags) → f ⊑ join f g
⊑-join_left f g = (λ h. ground arith, λ h. ground arith, λ h. ground arith, λ h. ground arith)

⊑-join_right : (f g : Flags) → g ⊑ join f g
⊑-join_right f g = (λ h. ground arith, λ h. ground arith, λ h. ground arith, λ h. ground arith)

-- `m` stands at position `j`.
abbrev At : ℕ → ChatMessage → List ChatMessage → Type 0
At j m [] = ⊥
At zero m (x ∷ xs) = m ≡ x
At (suc j) m (x ∷ xs) = At j m xs

position : (m : ChatMessage) (ms : List ChatMessage) → Member m ms → (j : ℕ) × At j m ms
position m (x ∷ xs) (inl e) = (zero, e)
position m (x ∷ xs) (inr n) = let (j, a) = position m xs n in (suc j, a)
position m [] n = absurd n

module _ (t : Texts) where
  abbrev flags_of : ChatMessage → Flags
  flags_of m = (redact t.regex (turn t m)).1

  abbrev step_flags : Option ℕ → ℕ → ChatMessage → Flags → Flags
  step_flags final index m f = if is_final final index then f else join f (flags_of m)

  ⊑-step :
      (final : Option ℕ) (index : ℕ) (m : ChatMessage) (f : Flags) → f ⊑ step_flags final index m f
  ⊑-step final index m f = elim (Bool-cases (is_final final index)) [
    | inl e ↦ rw e (⊑_refl f)
    | inr e ↦ rw e (⊑-join_left f (flags_of m))
  ]

  ⊑-step_other :
      (final : Option ℕ) (index : ℕ) (x m : ChatMessage) (f : Flags)
      → m ≡ x
      → is_final final (index + 0) ≡ false
      → flags_of m ⊑ step_flags final index x f
  ⊑-step_other final index x m f a e =
      let p : index + 0 ≡ index = omega arith in
      let e' : is_final final index ≡ false = rw p at e in
      rw e' (rw a (⊑-join_right f (flags_of x)))

  other_turns-grows :
      (final : Option ℕ) (index : ℕ) (ms : List ChatMessage) (f : Flags)
      → f ⊑ other_turns t final index ms f
  unfolding other_turns
  other_turns-grows final index [] f = ⊑_refl f
  other_turns-grows final index (m ∷ ms) f =
      ⊑_trans f (step_flags final index m f) _ (⊑-step final index m f)
        (other_turns-grows final (suc index) ms (step_flags final index m f))

  other_turns-covers :
      (final : Option ℕ) (index : ℕ) (ms : List ChatMessage) (f : Flags) (j : ℕ) (m : ChatMessage)
      → At j m ms
      → is_final final (index + j) ≡ false
      → flags_of m ⊑ other_turns t final index ms f
  unfolding other_turns
  other_turns-covers final index (x ∷ ms) f zero m a e =
      ⊑_trans (flags_of m) (step_flags final index x f) _ (⊑-step_other final index x m f a e)
        (other_turns-grows final (suc index) ms (step_flags final index x f))
  other_turns-covers final index (x ∷ ms) f (suc j) m a e =
      other_turns-covers final (suc index) ms (step_flags final index x f) j m a
        (let p : index + suc j ≡ suc index + j = omega arith in rw p at e)
  other_turns-covers final index [] f j m a e = absurd a

  message_at-At :
      (j : ℕ) (m : ChatMessage) (ms : List ChatMessage) → At j m ms → message_at t j ms ≡ turn t m
  unfolding message_at
  message_at-At zero m (x ∷ ms) a = ap (turn t) (sym a)
  message_at-At (suc j) m (x ∷ ms) a = message_at-At j m ms a
  message_at-At j m [] a = absurd a

  final_at : (final : Option ℕ) (j : ℕ) → is_final final j ≡ true → final ≡ some j
  unfolding is_final
  final_at none j h = cc
  final_at (some i) j h = ground arith

  final_text-At :
      (final : Option ℕ) (j : ℕ) (m : ChatMessage) (ms : List ChatMessage)
      → is_final final (0 + j) ≡ true
      → At j m ms
      → final_text t final ms ≡ turn t m
  unfolding final_text
  final_text-At final j m ms e a =
      let z : 0 + j ≡ j = omega arith in
      let e' : is_final final j ≡ true = rw z at e in
      rw (final_at final j e') (message_at-At j m ms a)

  ⊑_of_eq : (s s' : String) → s ≡ s' → (redact t.regex s').1 ⊑ (redact t.regex s).1
  ⊑_of_eq s s' p = rw p (⊑_refl (redact t.regex s').1)

  -- Every flag of every turn is a flag of the request.
  turn-⊑-request :
      (request : Request) (m : ChatMessage)
      → Member m request.messages
      → flags_of m ⊑ request_flags t request
  unfolding request_flags
  turn-⊑-request request m n =
      let (j, a) = position m request.messages n in
      let final = last_user t 0 request.messages in
      let start = (redact t.regex (final_text t final request.messages)).1 in
      elim (Bool-cases (is_final final (0 + j))) [
        | inr e ↦ other_turns-covers final 0 request.messages start j m a e
        | inl e ↦
            ⊑_trans (flags_of m) start _
              (⊑_of_eq (final_text t final request.messages) (turn t m)
                (final_text-At final j m request.messages e a))
              (other_turns-grows final 0 request.messages start)
      ]

  -- What `redact` and the tests of a message find in a harmless turn.
  pub record IsClean (m : ChatMessage) : Type 0 where
    pub no_pii : (flags_of m).pii ≡ false
    pub no_secrets : (flags_of m).secrets ≡ false
    pub not_personal : (flags_of m).personalized ≡ false
    pub certain : (flags_of m).uncertain ≡ false
    pub text_only : is_multimodal m ≡ false

  any_of_false :
      (m : ChatMessage) (ms : List ChatMessage)
      → Member m ms
      → any is_multimodal ms ≡ false
      → is_multimodal m ≡ false
  any_of_false m ms n h = any-false is_multimodal m ms h n

  unless : (a b : Bool) → (a ≡ true → b ≡ true) → b ≡ false → a ≡ false
  unless a b f h = ground arith

  -- A request that is eligible for the exact cache has no tools and a temperature of 0 or none, and in
  -- no turn of its conversation personal data, a secret, a personal context, a number that might be a
  -- card, or a part that is not text.
  pub cacheable-IsClean :
      (A : Arithmetic) (p : RoutingPolicyConfig A) (c : Option (RouterClassification A))
      (request : Request)
      → exact_cache_eligible A (normalize_request t request) p c ≡ true
      → (request.has_tools ≡ false)
        × (request.zero_temperature ≡ true)
        × ((m : ChatMessage) → Member m request.messages → IsClean m)
  unfolding normalize_request
  cacheable-IsClean A p c request h =
      let r = exact-IsReusable A (normalize_request t request) p c h in
      (
        r.no_tools,
        r.repeatable,
        λ m n.
            let f = turn-⊑-request request m n in
            record {
              no_pii = unless _ _ f.0 r.no_pii;
              no_secrets = unless _ _ f.1 r.no_secrets;
              not_personal = unless _ _ f.2 r.not_personalized;
              certain = unless _ _ f.3 r.certain;
              text_only = any_of_false m request.messages n r.no_images;
            },
      )
