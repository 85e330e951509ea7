-- ===== src/Mapper/Conditions.antt =====
-- What is asked of the parts of a chat request that is accepted, spelled out, and that the checks of
-- apps/gateway/internal/adapters/http/mapper/chat_to_domain.go are these conditions.
use dappnode_nexus_gateway.Common.{
  ◌≡◌, ◌≢◌, ◌↔◌, refl, subst, String, Bool, true, false, not, ◌&&◌, ◌||◌, List, Option, none, some,
  ◌⊎◌, inl, inr, ◌==◌, ◌!=◌, string_eq, eq_iff, is_some, any, Any, any_of_Any, arith, Bool-cases,
  Option-cases,
}
use dappnode_nexus_gateway.Common.Int.{ℤ, pos, int_eq, int_beq_iff}
use dappnode_nexus_gateway.Mapper.{
  ChatTool, Decoding, has_value, given, check_tool_choice, choice_error, is_other_than_one, is_true,
  structured, or_other,
}

abbrev pub IsPlainRole : String → Type 0
IsPlainRole role = (role ≡ "system") ⊎ ((role ≡ "developer") ⊎ ((role ≡ "user") ⊎ (role ≡ "tool")))

-- A value that is missing, empty or null.
abbrev pub IsNoValue : Option String → Type 0
IsNoValue o = (o ≡ none) ⊎ ((o ≡ some "") ⊎ (o ≡ some "null"))

-- Only a tool message names the call that it answers.
abbrev pub IsAnswer : String → Option String → Type 0
IsAnswer role id =
    ((role ≡ "tool") × ((call : String) × ((call ≢ "") × (id ≡ some call))))
    ⊎ ((role ≢ "tool") × (id ≡ none))

abbrev pub IsNamedFunction : ChatTool → Type 0
IsNamedFunction t = ((t.type ≡ "") ⊎ (t.type ≡ "function")) × (t.function_name ≢ "")

abbrev pub IsMode : String → Type 0
IsMode mode = (mode ≡ "none") ⊎ ((mode ≡ "auto") ⊎ (mode ≡ "required"))

-- A choice of tool: none, a mode, or a function by its name.
abbrev pub IsChoice : Decoding → Option String → Type 0
IsChoice decoding none = Unit
IsChoice decoding (some raw) =
    (raw ≡ "")
    ⊎ (((mode : String) × ((decoding.text raw ≡ some mode) × IsMode mode))
        ⊎ ((decoding.text raw ≡ none)
            × ((name : String) × ((decoding.named raw ≡ some ("function", name)) × (name ≢ "")))))

same_text : (a b : String) → (a == b) ≡ true → a ≡ b
same_text a b = (eq_iff a b).0

pub other_text : (a b : String) → (a == b) ≡ false → a ≢ b
other_text a b h e = absurd (ground (arith, h, (eq_iff a b).1 e))

pub plain_role :
    (role : String)
    → (role == "system" || role == "developer" || role == "user" || role == "tool") ≡ true
    → IsPlainRole role
plain_role role h = elim (Bool-cases (role == "system")) [
  | inl system ↦ inl (same_text role "system" system)
  | inr a ↦ elim (Bool-cases (role == "developer")) [
    | inl developer ↦ inr (inl (same_text role "developer" developer))
    | inr b ↦ elim (Bool-cases (role == "user")) [
      | inl user ↦ inr (inr (inl (same_text role "user" user)))
      | inr c ↦ inr (inr (inr (same_text role "tool" (ground (arith, h, a, b, c)))))
    ]
  ]
]

pub no_value : (o : Option String) → has_value o ≡ false → IsNoValue o
no_value none h = inl refl
no_value (some raw) h = elim (Bool-cases (raw == "")) [
  | inl empty ↦ rw (same_text raw "" empty) (inr (inl refl))
  | inr there ↦ rw (same_text raw "null" (ground (arith, h, there))) (inr (inr refl))
]

given_id :
    (id : Option String) → given id ≡ true → (call : String) × ((call ≢ "") × (id ≡ some call))
given_id none h = absurd (ground (arith, h))
given_id (some call) h = (call, (other_text call "" (ground (arith, h)), refl))

pub no_id : (id : Option String) → is_some id ≡ false → id ≡ none
no_id none h = refl
no_id (some call) h = absurd (ground (arith, h))

pub tool-IsAnswer :
    (role : String) (id : Option String)
    → (role == "tool") ≡ given id
    → (role == "tool" || not (is_some id)) ≡ true
    → IsAnswer role id
tool-IsAnswer role id answered alone = elim (Bool-cases (role == "tool")) [
  | inl tool ↦ inl (same_text role "tool" tool, given_id id (ground (arith, answered, tool)))
  | inr other_role ↦
      inr (other_text role "tool" other_role, no_id id (ground (arith, alone, other_role)))
]

pub named_function :
    (t : ChatTool)
    → (t.type != "" && t.type != "function") ≡ false
    → (t.function_name == "") ≡ false
    → IsNamedFunction t
named_function t type name = (
  elim (Bool-cases (t.type == "")) [
    | inl empty ↦ inl (same_text t.type "" empty)
    | inr there ↦ inr (same_text t.type "function" (ground (arith, type, there)))
  ],
  other_text t.function_name "" name,
)

IsMode-cases :
    (mode : String) → (mode == "none" || mode == "auto" || mode == "required") ≡ true → IsMode mode
IsMode-cases mode h = elim (Bool-cases (mode == "none")) [
  | inl a ↦ inl (same_text mode "none" a)
  | inr a ↦ elim (Bool-cases (mode == "auto")) [
    | inl b ↦ inr (inl (same_text mode "auto" b))
    | inr b ↦ inr (inr (same_text mode "required" (ground (arith, h, a, b))))
  ]
]

pub IsChoice-passes :
    (decoding : Decoding) (choice : Option String)
    → choice_error decoding choice ≡ none
    → IsChoice decoding choice
unfolding check_tool_choice
IsChoice-passes decoding none h = tt
IsChoice-passes decoding (some raw) h = elim (Bool-cases (raw == "")) [
  | inl empty ↦ inl (same_text raw "" empty)
  | inr there ↦ elim (Option-cases (decoding.text raw)) [
    | inr (mode, read) ↦
        inr (inl (mode, (read, IsMode-cases mode (ground (arith, h, there, read)))))
    | inl no_text ↦ elim (Option-cases (decoding.named raw)) [
      | inl unread ↦ absurd (ground (arith, h, there, no_text, unread))
      | inr ((type, name), read) ↦
          let function : (type == "function") ≡ true = ground (arith, h, there, no_text, read) in
          let named : (name == "") ≡ false = ground (arith, h, there, no_text, read) in
          inr (
            inr (
              no_text,
              (
                name,
                (
                  subst (λ t. decoding.named raw ≡ some (t, name))
                      (same_text type "function" function) read,
                  other_text name "" named,
                ),
              ),
            ))
    ]
  ]
]

pub one_answer :
    (decoding : Decoding) (n : Option ℤ)
    → is_other_than_one decoding n ≡ false
    → (n ≡ none) ⊎ (n ≡ some (pos 1))
one_answer decoding none h = inl refl
one_answer decoding (some n) h = inr (rw ((int_beq_iff n (pos 1)).0 (ground (arith, h))) refl)

pub one_limit :
    (decoding : Decoding) (a b : Option ℤ)
    → (is_some a && is_some b) ≡ false
    → ((a ≡ none) × (or_other decoding a b ≡ b)) ⊎ ((b ≡ none) × (or_other decoding a b ≡ a))
one_limit decoding none b h = inl (refl, refl)
one_limit decoding (some n) none h = inr (refl, refl)
one_limit decoding (some n) (some m) h = absurd (ground (arith, h))

pub is_true_iff :
    (decoding : Decoding) (o : Option Bool) → (is_true decoding o ≡ true) ↔ (o ≡ some true)
is_true_iff decoding none = (λ h. absurd (ground (arith, h)), λ h. absurd (ground (arith, h)))
is_true_iff decoding (some true) = (λ h. refl, λ h. refl)
is_true_iff decoding (some false) =
    (λ h. absurd (ground (arith, h)), λ h. absurd (ground (arith, h)))

pub structured_of :
    (decoding : Decoding) (o : Option String)
    → structured decoding o ≡ true
    → (o ≡ some "json_object") ⊎ (o ≡ some "json_schema")
structured_of decoding none h = absurd (ground (arith, h))
structured_of decoding (some type) h = elim (Bool-cases (type == "json_object")) [
  | inl same ↦ inl (rw (same_text type "json_object" same) refl)
  | inr other_type ↦ inr (rw (same_text type "json_schema" (ground (arith, h, other_type))) refl)
]

pub of_structured :
    (decoding : Decoding) (o : Option String)
    → (o ≡ some "json_object") ⊎ (o ≡ some "json_schema")
    → structured decoding o ≡ true
of_structured decoding o (inl same) = rw same refl
of_structured decoding o (inr same) = rw same refl

pub absent :
    (present : List String) (key : String)
    → any (λ j. j == key) present ≡ false
    → ¬ Any (λ j. j ≡ key) present
absent present key h there =
    let found : any (λ j. j == key) present ≡ true =
      any_of_Any (λ j. j ≡ key) (λ j. j == key) present (λ j. (eq_iff j key).1) there in
    absurd (ground (arith, h, found))
