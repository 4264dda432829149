-- ===== src/Model/Registry.antt =====
-- crates/arcc-core/src/model/registry.rs: the providers by name, and the choice between the two models.
-- `to_lowercase` is a parameter.
use Prim.Native.String.{String}
use arcc.Base.{
  ℕ, ◌<◌, ◌≡◌, refl, sym, ◌∙◌, ◌↔◌, ◌⊎◌, inl, inr, Bool, true, false, ◌&&◌, ◌||◌, List, [], ◌∷◌,
  Option, arith, ltb, list_Eq, if◌then◌else◌, any, Listed, Bool-cases, any_sound, any-Listed,
}
use arcc.Base.Text.{Text, codes, contains, byte_len, Occurs, contains_iff}
use arcc.Base.Maps.{Map, get, insert}
use arcc.Model.Provider.{ModelProvider}

pub record ProviderRegistry : Type 0 where
  pub providers : Map Text ModelProvider
  pub pro_model : Text
  pub flash_model : Text

unfoldable pub new_registry : Text → Text → ProviderRegistry
new_registry pro_model flash_model = record {
  providers = [];
  pro_model = pro_model;
  flash_model = flash_model;
}

unfoldable pub register : Text → ModelProvider → ProviderRegistry → ProviderRegistry
unfolding insert
register name provider r = record r { providers = insert name provider r.providers }

unfoldable pub pro : ProviderRegistry → Option ModelProvider
unfolding get
pro r = get r.pro_model r.providers

unfoldable pub flash : ProviderRegistry → Option ModelProvider
unfolding get
flash r = get r.flash_model r.providers

abbrev texts : List String → List Text
texts [] = []
texts (s ∷ ss) = codes s ∷ texts ss

unfoldable pub complexity_keywords : List Text
complexity_keywords = texts (
    "分析" ∷ "为什么" ∷ "根因" ∷ "调试" ∷ "优化" ∷ "设计" ∷ "架构" ∷ "比较" ∷ "解释" ∷ "如何实现" ∷ "对比" ∷ "总结" ∷ "评估"
    ∷ "预测" ∷ "推理" ∷ "规划" ∷ "方案" ∷ "原理" ∷ "机制" ∷ "区别" ∷ "analyze" ∷ "why" ∷ "root cause" ∷ "debug"
    ∷ "optimize" ∷ "design" ∷ "architecture" ∷ "refactor" ∷ "explain" ∷ "compare" ∷ "performance"
    ∷ "security" ∷ [])

false_is_not_true : false ≡ true → ⊥
false_is_not_true f = cc

either_test_iff {ℓ} :
    {P Q R : Type ℓ} {a b c : Bool}
    → (a ≡ true) ↔ P
    → (b ≡ true) ↔ Q
    → (c ≡ true) ↔ R
    → ((a || (b && c)) ≡ true) ↔ (P ⊎ (Q × R))
either_test_iff {a = true} p q r = ((λ h. inl (p.0 refl)), (λ s. refl))
either_test_iff {a = false} {b = true} p q r = (
  (λ h. inr (q.0 refl, r.0 h)),
  (λ s. elim s [ inl x ↦ absurd (false_is_not_true (p.1 x)) | inr y ↦ r.1 y.1 ]),
)
either_test_iff {a = false} {b = false} p q r =
    ((λ h. absurd (false_is_not_true h)), (λ s. elim s [ inl x ↦ p.1 x | inr y ↦ q.1 y.0 ]))

module _ (to_lowercase : Text → Text) where
  unfoldable pub has_complex_keyword : Text → Bool
  unfolding complexity_keywords contains
  has_complex_keyword prompt = any (λ k. contains k (to_lowercase prompt)) complexity_keywords

  unfoldable pub pick : Text → ProviderRegistry → Option ModelProvider
  unfolding has_complex_keyword pro flash
  pick prompt r =
      if ltb 256 (byte_len prompt) || (ltb 30 (byte_len prompt) && has_complex_keyword prompt)
      then pro r
      else flash r

  -- A prompt of over 256 bytes, or of over 30 bytes with a keyword in it.
  abbrev pub IsComplex : Text → Type 0
  IsComplex prompt =
      (256 < byte_len prompt)
      ⊎ ((30 < byte_len prompt)
          × ((k : Text) × Listed k complexity_keywords × Occurs k (to_lowercase prompt)))

  keyword_iff :
      (prompt : Text)
      → (has_complex_keyword prompt ≡ true)
        ↔ ((k : Text) × Listed k complexity_keywords × Occurs k (to_lowercase prompt))
  unfolding has_complex_keyword
  keyword_iff prompt = (
    (λ h.
        let (k, l, found) =
          any_sound (λ k. contains k (to_lowercase prompt)) complexity_keywords h in
        (k, l, (contains_iff k (to_lowercase prompt)).0 found)),
    (λ (k, l, found).
        any-Listed (λ k. contains k (to_lowercase prompt)) k complexity_keywords l
          ((contains_iff k (to_lowercase prompt)).1 found)),
  )

  long_iff : (prompt : Text) (n : ℕ) → (ltb n (byte_len prompt) ≡ true) ↔ (n < byte_len prompt)
  long_iff prompt n = ((λ h. ground arith), (λ h. ground arith))

  test_iff :
      (prompt : Text)
      → ((ltb 256 (byte_len prompt) || (ltb 30 (byte_len prompt) && has_complex_keyword prompt))
          ≡ true)
        ↔ IsComplex prompt
  test_iff prompt = either_test_iff (long_iff prompt 256) (long_iff prompt 30) (keyword_iff prompt)

  -- The pro model is chosen for a complex prompt, and the flash model for any other: where a prompt
  -- has over 256 bytes, or over 30 and one of the keywords occurs in it in lower case.
  pub pick-IsComplex :
      (prompt : Text) (r : ProviderRegistry)
      → ((pick prompt r ≡ pro r) × IsComplex prompt)
        ⊎ ((pick prompt r ≡ flash r) × (IsComplex prompt → ⊥))
  unfolding pick
  pick-IsComplex prompt r =
      elim (Bool-cases
        (ltb 256 (byte_len prompt) || (ltb 30 (byte_len prompt) && has_complex_keyword prompt))) [
          | inl hard ↦ rw hard (inl (refl, (test_iff prompt).0 hard))
          | inr easy ↦
              rw easy (inr (refl, λ c. false_is_not_true (sym easy ∙ (test_iff prompt).1 c)))
        ]
