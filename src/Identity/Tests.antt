-- ===== src/Identity/Tests.antt =====
-- Two judgements, of which one vouches, in the extra level of a bounded list; and the events of a block.
use polkadot_indexer_framerw.Common.{
  ℕ, ◌≡◌, refl, true, some, List, [], ◌∷◌, length, replicate, All,
}
use polkadot_indexer_framerw.Store.Layout.{list_eq}
use polkadot_indexer_framerw.Identity.Json.{
  Json, text, array, object, nil, cons, end, field, unwrap_bounded, variant_name, get_field,
}
use polkadot_indexer_framerw.Identity.Judgement.{
  best_judgement, fee_paid, judged, judge_items, judgement_str, parse_judgement, parse_judgements,
  parse_judgements-best, reasonable, vouched_by, is_vouched,
}
use polkadot_indexer_framerw.Core.Ss58.{Base58, Blake2}
use polkadot_indexer_framerw.Identity.Touched.Complete.{IsEntry, any_mentions, collect_lem, named}
use polkadot_indexer_framerw.Identity.Touched.{
  NewEvent, Texts, account_bytes, collect, collect_into, hex_text, identity_pallet, put_account,
  strip_0x, touch_accounts, touch_event,
}

abbrev two_said : Json
unfolding judgement_str
two_said = array (
    cons
      (array (
        cons
          (array (
            cons (text (b'0' ∷ []))
              (cons (object (field (judgement_str fee_paid) (text (b'5' ∷ [])) end)) nil)))
          (cons
            (array (
              cons (text (b'1' ∷ []))
                (cons (object (field (judgement_str reasonable) (array nil) end)) nil)))
            nil)))
      nil)

parse_judgements-best_example :
    vouched_by (best_judgement (parse_judgements (some two_said)).0)
    ≡ (parse_judgements (some two_said)).1
parse_judgements-best_example = parse_judgements-best (some two_said)

one_vouches : (parse_judgements (some two_said)).1 ≡ true
unfolding two_said parse_judgements unwrap_bounded judge_items judged judgement_str parse_judgement
    variant_name list_eq is_vouched
one_vouches = refl

abbrev zero_digest : Blake2
zero_digest = record { digest = λ bytes. replicate 64 0; length-digest = λ bytes. refl }

abbrev as_is : Base58
as_is = record { to_text = λ b. b; of_text = λ b. some b; of_text-to_text = λ b. refl }

-- Every hexadecimal text stands for the same account.
abbrev same_account : Texts
same_account = record {
  hex_decode = λ digits. some (replicate 32 7);
  from_utf8_lossy = λ bytes. bytes;
}

abbrev identity_set : NewEvent
identity_set = record {
  pallet = identity_pallet;
  variant = b'I' ∷ [];
  fields = object (field (b'w' ∷ b'h' ∷ b'o' ∷ []) (text (b'0' ∷ b'x' ∷ b'7' ∷ [])) end);
}

collect_lem_example :
    ((address : List ℕ)
      → named address (collect same_account zero_digest as_is 0 (identity_set ∷ [])).accounts
        ≡ any_mentions same_account zero_digest as_is 0 address (identity_set ∷ []))
    × All
        (IsEntry same_account zero_digest as_is 0)
        (collect same_account zero_digest as_is 0 (identity_set ∷ [])).accounts
collect_lem_example = collect_lem same_account zero_digest as_is 0 (identity_set ∷ [])

one_touched : length (collect same_account zero_digest as_is 0 (identity_set ∷ [])).accounts ≡ 1
unfolding collect collect_into touch_event touch_accounts list_eq get_field account_bytes hex_text
    strip_0x put_account
one_touched = refl
