-- ===== src/Identity/Judgement.antt =====
-- Judgements: `parse_judgements` of crates/pif-identity/src/model.rs, which flattens what the registrars
-- have said, and `best_judgement` of resolver.rs, which reads it back.
use polkadot_indexer_framerw.Common.{
  ℕ, ◌≡◌, refl, ap, ◌∙◌, inl, inr, Bool, true, false, ◌||◌, Option, none, some, List, [], ◌∷◌,
  arith, leb, if◌then◌else◌, Bool-cases,
}
use polkadot_indexer_framerw.Store.Layout.{list_eq}
use polkadot_indexer_framerw.Identity.Json.{
  Json, Items, null, boolean, number, text, array, object, nil, cons, end, field, as_str, get_field,
  u64_from_json, unwrap_bounded, variant_name,
}

pub data Judgement : Type 0 where
  known_good reasonable fee_paid low_quality erroneous out_of_date unknown : Judgement

unfoldable pub is_vouched : Judgement → Bool
is_vouched known_good = true
is_vouched reasonable = true
is_vouched fee_paid = false
is_vouched low_quality = false
is_vouched erroneous = false
is_vouched out_of_date = false
is_vouched unknown = false

-- `Judgement::as_str`
unfoldable pub judgement_str : Judgement → List ℕ
judgement_str known_good = b'K' ∷ b'n' ∷ b'o' ∷ b'w' ∷ b'n' ∷ b'G' ∷ b'o' ∷ b'o' ∷ b'd' ∷ []
judgement_str reasonable = b'R' ∷ b'e' ∷ b'a' ∷ b's' ∷ b'o' ∷ b'n' ∷ b'a' ∷ b'b' ∷ b'l' ∷ b'e' ∷ []
judgement_str fee_paid = b'F' ∷ b'e' ∷ b'e' ∷ b'P' ∷ b'a' ∷ b'i' ∷ b'd' ∷ []
judgement_str low_quality = b'L' ∷ b'o' ∷ b'w' ∷ b'Q' ∷ b'u' ∷ b'a' ∷ b'l' ∷ b'i' ∷ b't' ∷ b'y' ∷ []
judgement_str erroneous = b'E' ∷ b'r' ∷ b'r' ∷ b'o' ∷ b'n' ∷ b'e' ∷ b'o' ∷ b'u' ∷ b's' ∷ []
judgement_str out_of_date = b'O' ∷ b'u' ∷ b't' ∷ b'O' ∷ b'f' ∷ b'D' ∷ b'a' ∷ b't' ∷ b'e' ∷ []
judgement_str unknown = b'U' ∷ b'n' ∷ b'k' ∷ b'n' ∷ b'o' ∷ b'w' ∷ b'n' ∷ []

-- `Judgement::parse`, and `parse_judgement` of the resolver, which has the same table.
unfoldable pub parse_judgement : List ℕ → Judgement
parse_judgement name =
    if list_eq name (judgement_str known_good)
    then known_good
    else if list_eq name (judgement_str reasonable)
    then reasonable
    else if list_eq name (judgement_str fee_paid)
    then fee_paid
    else if list_eq name (judgement_str low_quality)
    then low_quality
    else if list_eq name (judgement_str erroneous)
    then erroneous
    else if list_eq name (judgement_str out_of_date)
    then out_of_date
    else unknown

abbrev pub index_key : List ℕ
index_key =
    b'r' ∷ b'e' ∷ b'g' ∷ b'i' ∷ b's' ∷ b't' ∷ b'r' ∷ b'a' ∷ b'r' ∷ b'_' ∷ b'i' ∷ b'n' ∷ b'd' ∷ b'e'
    ∷ b'x' ∷ []

abbrev pub judgement_key : List ℕ
judgement_key = b'j' ∷ b'u' ∷ b'd' ∷ b'g' ∷ b'e' ∷ b'm' ∷ b'e' ∷ b'n' ∷ b't' ∷ []

abbrev pub index_json : Option ℕ → Json
index_json none = null
index_json (some n) = number (some n)

-- One object of the list that is stored.
unfoldable pub entry_json : Option ℕ → Judgement → Json
entry_json index judgement =
    object (
      field index_key (index_json index) (field judgement_key (text (judgement_str judgement)) end))

abbrev pub name_or_unknown : Option (List ℕ) → List ℕ
name_or_unknown none = judgement_str unknown
name_or_unknown (some name) = name

-- What an item says, if it is a list of an index and a judgement at least.
unfoldable pub judged : Json → Option (Option ℕ × Judgement)
judged (array (cons index (cons verdict more))) =
    some (u64_from_json index, parse_judgement (name_or_unknown (variant_name verdict)))
judged _ = none

abbrev pub and_entry : Option (Option ℕ × Judgement) → Items × Bool → Items × Bool
and_entry none rest = rest
and_entry (some (index, judgement)) (out, vouched) =
    (cons (entry_json index judgement) out, is_vouched judgement || vouched)

-- The loop of `parse_judgements`.
unfoldable pub judge_items : Items → Items × Bool
judge_items nil = (nil, false)
judge_items (cons item more) = and_entry (judged item) (judge_items more)

abbrev pub judge_array : Json → Items × Bool
judge_array (array items) = judge_items items
judge_array null = (nil, false)
judge_array (boolean b) = (nil, false)
judge_array (number n) = (nil, false)
judge_array (text s) = (nil, false)
judge_array (object fields) = (nil, false)

unfoldable pub parse_judgements : Option Json → Json × Bool
parse_judgements none = (array nil, false)
parse_judgements (some raw) =
    (array (judge_array (unwrap_bounded raw)).0, (judge_array (unwrap_bounded raw)).1)

-- The derived order: best first.
abbrev pub rank : Judgement → ℕ
rank known_good = 0
rank reasonable = 1
rank fee_paid = 2
rank low_quality = 3
rank erroneous = 4
rank out_of_date = 5
rank unknown = 6

-- The `judgement` of an item, if it has one that is a string.
unfoldable pub said : Json → Option (List ℕ)
said (object fields) = as_str (get_field judgement_key fields)
said _ = none

abbrev pub stronger : Option (List ℕ) → Option Judgement → Option Judgement
stronger none best = best
stronger (some name) none = some (parse_judgement name)
stronger (some name) (some best) =
    if leb (rank (parse_judgement name)) (rank best) then some (parse_judgement name) else some best

-- The `min` of `best_judgement`.
unfoldable pub best_of : Items → Option Judgement
best_of nil = none
best_of (cons item more) = stronger (said item) (best_of more)

unfoldable pub best_judgement : Json → Option Judgement
best_judgement (array items) = best_of items
best_judgement _ = none

parse_judgement-str : (j : Judgement) → parse_judgement (judgement_str j) ≡ j
unfolding parse_judgement judgement_str list_eq
parse_judgement-str known_good = refl
parse_judgement-str reasonable = refl
parse_judgement-str fee_paid = refl
parse_judgement-str low_quality = refl
parse_judgement-str erroneous = refl
parse_judgement-str out_of_date = refl
parse_judgement-str unknown = refl

is_vouched-rank : (j : Judgement) → is_vouched j ≡ leb (rank j) 1
unfolding is_vouched
is_vouched-rank known_good = refl
is_vouched-rank reasonable = refl
is_vouched-rank fee_paid = refl
is_vouched-rank low_quality = refl
is_vouched-rank erroneous = refl
is_vouched-rank out_of_date = refl
is_vouched-rank unknown = refl

said-entry : (index : Option ℕ) (j : Judgement) → said (entry_json index j) ≡ some (judgement_str j)
unfolding said entry_json get_field list_eq
said-entry index j = refl

abbrev pub vouched_by : Option Judgement → Bool
vouched_by none = false
vouched_by (some j) = is_vouched j

or_false : (b : Bool) → b ≡ (b || false)
or_false true = refl
or_false false = refl

stronger-vouched :
    (j : Judgement) (best : Option Judgement)
    → vouched_by (stronger (some (judgement_str j)) best) ≡ (is_vouched j || vouched_by best)
stronger-vouched j none = ap is_vouched (parse_judgement-str j) ∙ or_false (is_vouched j)
stronger-vouched j (some k) =
    rw (parse_judgement-str j) (elim (Bool-cases (leb (rank j) (rank k))) [
      | inl first ↦ rw first (ground (arith, first, is_vouched-rank j, is_vouched-rank k))
      | inr second ↦ rw second (ground (arith, second, is_vouched-rank j, is_vouched-rank k))
    ])

and_entry-best :
    (item : Option (Option ℕ × Judgement)) (rest : Items × Bool)
    → vouched_by (best_of rest.0) ≡ rest.1
    → vouched_by (best_of (and_entry item rest).0) ≡ (and_entry item rest).1
unfolding best_of
and_entry-best none rest h = h
and_entry-best (some (index, j)) (out, vouched) h =
    ap (λ name. vouched_by (stronger name (best_of out))) (said-entry index j)
    ∙ stronger-vouched j (best_of out)
    ∙ ap (λ b. is_vouched j || b) h

judge_items-best :
    (items : Items) → vouched_by (best_of (judge_items items).0) ≡ (judge_items items).1
unfolding judge_items best_of
judge_items-best nil = refl
judge_items-best (cons item more) =
    and_entry-best (judged item) (judge_items more) (judge_items-best more)

judge_array-best : (raw : Json) → vouched_by (best_of (judge_array raw).0) ≡ (judge_array raw).1
unfolding best_of
judge_array-best (array items) = judge_items-best items
judge_array-best null = refl
judge_array-best (boolean b) = refl
judge_array-best (number n) = refl
judge_array-best (text s) = refl
judge_array-best (object fields) = refl

-- The flag and the list that are stored say the same: an identity is marked as verified exactly when the
-- best judgement that is read back from its stored list is one of the two that vouch, whatever value the
-- storage held for the judgements.
pub parse_judgements-best :
    (raw : Option Json)
    → vouched_by (best_judgement (parse_judgements raw).0) ≡ (parse_judgements raw).1
unfolding best_judgement parse_judgements best_of
parse_judgements-best none = refl
parse_judgements-best (some raw) = judge_array-best (unwrap_bounded raw)
