-- ===== src/Identity/Touched/Complete.antt =====
-- `collect` misses no account and adds none: what the result names, against what the events mention.
use polkadot_indexer_framerw.Common.{
  ℕ, ◌≡◌, refl, sym, ap, subst, ◌∙◌, inl, inr, Bool, true, false, ◌||◌, Option, none, some, List,
  [], ◌∷◌, arith, ◌==◌, if◌then◌else◌, ==_iff, Bool-cases, some_inj, length, take, All,
}
use polkadot_indexer_framerw.Store.Layout.{list_eq}
use polkadot_indexer_framerw.Store.Layout.Names.{list_eq_iff}
use polkadot_indexer_framerw.Core.Ss58.{Base58, Blake2, encode}
use polkadot_indexer_framerw.Identity.Json.{
  Json, Fields, null, boolean, number, text, array, object, get_field,
}
use polkadot_indexer_framerw.Identity.Touched.{
  NewEvent, Texts, Touched, account_bytes, account_fields, collect, collect_into, field_account,
  if_thirty_two, identity_pallet, nothing_touched, put_account, registrar_prefix, touch_accounts,
  touch_event, touch_fields, with_account, with_registrars, field_username, username_field,
  with_username, decode_0x, hex_text, strip_text,
}

-- Whether an address is a key of the map.
abbrev pub named : List ℕ → List (List ℕ × List ℕ) → Bool
named address [] = false
named address ((other, bytes) ∷ accounts) = list_eq other address || named address accounts

named-put :
    (x address bytes : List ℕ) (accounts : List (List ℕ × List ℕ))
    → named x (put_account address bytes accounts) ≡ (list_eq address x || named x accounts)
unfolding put_account
named-put x address bytes [] = refl
named-put x address bytes ((other, old) ∷ accounts) = elim (Bool-cases (list_eq other address)) [
  | inl same ↦
      let e = ap (λ n. list_eq n x) ((list_eq_iff other address).0 same) in
      rw same (ground (arith, e))
  | inr differ ↦ rw differ (ground (arith, named-put x address bytes accounts))
]

put-All :
    (P : List ℕ × List ℕ → Type 0) (address bytes : List ℕ) (accounts : List (List ℕ × List ℕ))
    → P (address, bytes)
    → All P accounts
    → All P (put_account address bytes accounts)
unfolding put_account
put-All P address bytes [] p ps = (p, tt)
put-All P address bytes ((other, old) ∷ accounts) p ps = elim (Bool-cases (list_eq other address)) [
  | inl same ↦ rw same (p, ps.1)
  | inr differ ↦ rw differ (ps.0, put-All P address bytes accounts p ps.1)
]

or_none : (a : Bool) → a ≡ (a || false)
or_none true = refl
or_none false = refl

or_swap : (a b c : Bool) → (a || (b || c)) ≡ ((b || a) || c)
or_swap true true c = refl
or_swap true false c = refl
or_swap false true c = refl
or_swap false false c = refl

module _ (texts : Texts) (blake2 : Blake2) (base58 : Base58) (prefix : ℕ) where
  abbrev pub names_it : List ℕ → Option (List ℕ) → Bool
  names_it x none = false
  names_it x (some bytes) = list_eq (encode blake2 base58 bytes prefix) x

  -- Whether one of the named fields holds the account with this address.
  abbrev pub mentioned : List ℕ → List (List ℕ) → Fields → Bool
  mentioned x [] fields = false
  mentioned x (name ∷ names) fields =
      names_it x (field_account texts (get_field name fields)) || mentioned x names fields

  abbrev pub value_mentions : List ℕ → Json → Bool
  value_mentions x (object fields) = mentioned x account_fields fields
  value_mentions x null = false
  value_mentions x (boolean b) = false
  value_mentions x (number n) = false
  value_mentions x (text s) = false
  value_mentions x (array items) = false

  -- Whether an event is of the pallet and holds the account in one of its account fields.
  abbrev pub event_mentions : List ℕ → NewEvent → Bool
  event_mentions x event =
      if list_eq event.pallet identity_pallet then value_mentions x event.fields else false

  abbrev pub any_mentions : List ℕ → List NewEvent → Bool
  any_mentions x [] = false
  any_mentions x (event ∷ events) = event_mentions x event || any_mentions x events

  -- An entry of the map: the address of an account of 32 bytes.
  abbrev pub IsEntry : List ℕ × List ℕ → Type 0
  IsEntry (address, bytes) = (address ≡ encode blake2 base58 bytes prefix) × (length bytes ≡ 32)

  named-with :
      (x : List ℕ) (found_bytes : Option (List ℕ)) (t : Touched)
      → named x (with_account texts blake2 base58 prefix found_bytes t).accounts
        ≡ (names_it x found_bytes || named x t.accounts)
  named-with x none t = refl
  named-with x (some bytes) t = named-put x (encode blake2 base58 bytes prefix) bytes t.accounts

  named-touch_accounts :
      (x : List ℕ) (names : List (List ℕ)) (fields : Fields) (t : Touched)
      → named x (touch_accounts texts blake2 base58 prefix names fields t).accounts
        ≡ (mentioned x names fields || named x t.accounts)
  unfolding touch_accounts
  named-touch_accounts x [] fields t = refl
  named-touch_accounts x (name ∷ names) fields t =
      let read_bytes = field_account texts (get_field name fields) in
      named-touch_accounts x names fields (with_account texts blake2 base58 prefix read_bytes t)
      ∙ ap (λ b. mentioned x names fields || b) (named-with x read_bytes t)
      ∙ or_swap (mentioned x names fields) (names_it x read_bytes) (named x t.accounts)

  named-username :
      (x : List ℕ) (name : Option (List ℕ)) (t : Touched)
      → named x (with_username name t).accounts ≡ named x t.accounts
  named-username x none t = refl
  named-username x (some name) t = refl

  named-registrars :
      (x : List ℕ) (b : Bool) (t : Touched)
      → named x (with_registrars b t).accounts ≡ named x t.accounts
  named-registrars x true t = refl
  named-registrars x false t = refl

  named-touch_fields :
      (x : List ℕ) (value : Json) (t : Touched)
      → named x (touch_fields texts blake2 base58 prefix value t).accounts
        ≡ (value_mentions x value || named x t.accounts)
  named-touch_fields x (object fields) t =
      named-username x (field_username texts (get_field username_field fields))
        (touch_accounts texts blake2 base58 prefix account_fields fields t)
      ∙ named-touch_accounts x account_fields fields t
  named-touch_fields x null t = refl
  named-touch_fields x (boolean b) t = refl
  named-touch_fields x (number n) t = refl
  named-touch_fields x (text s) t = refl
  named-touch_fields x (array items) t = refl

  named-touch_event :
      (x : List ℕ) (event : NewEvent) (t : Touched)
      → named x (touch_event texts blake2 base58 prefix event t).accounts
        ≡ (event_mentions x event || named x t.accounts)
  unfolding touch_event
  named-touch_event x event t = elim (Bool-cases (list_eq event.pallet identity_pallet)) [
    | inr away ↦ rw away refl
    | inl ours ↦
        let flag = list_eq (take (length registrar_prefix) event.variant) registrar_prefix in
        rw ours (
          named-touch_fields x event.fields (with_registrars flag t)
          ∙ ap (λ b. value_mentions x event.fields || b) (named-registrars x flag t))
  ]

  named-collect_into :
      (x : List ℕ) (events : List NewEvent) (t : Touched)
      → named x (collect_into texts blake2 base58 prefix events t).accounts
        ≡ (any_mentions x events || named x t.accounts)
  unfolding collect_into
  named-collect_into x [] t = refl
  named-collect_into x (event ∷ events) t =
      named-collect_into x events (touch_event texts blake2 base58 prefix event t)
      ∙ ap (λ b. any_mentions x events || b) (named-touch_event x event t)
      ∙ or_swap (any_mentions x events) (event_mentions x event) (named x t.accounts)

  thirty_two :
      (read_bytes : Option (List ℕ)) (bytes : List ℕ)
      → if_thirty_two read_bytes ≡ some bytes
      → length bytes ≡ 32
  thirty_two none bytes e = absurd (ground (arith, e))
  thirty_two (some held) bytes e = elim (Bool-cases (length held == 32)) [
    | inl right ↦
        let same : some held ≡ some bytes = rw (right, if_thirty_two) at e in
        subst (λ b. length b ≡ 32) (some_inj same) ((==_iff (length held) 32).0 right)
    | inr wrong ↦ absurd (ground (arith, wrong, e))
  ]

  decode_0x-length :
      (bytes : List ℕ) (stripped : Option (List ℕ))
      → decode_0x texts stripped ≡ some bytes
      → length bytes ≡ 32
  decode_0x-length bytes none e = absurd (ground (arith, e))
  decode_0x-length bytes (some hex) e = thirty_two (texts.hex_decode hex) bytes e

  field_account-length :
      (value : Option Json) (bytes : List ℕ)
      → field_account texts value ≡ some bytes
      → length bytes ≡ 32
  unfolding account_bytes
  field_account-length none bytes e = absurd (ground (arith, e))
  field_account-length (some value) bytes e = decode_0x-length bytes (strip_text (hex_text value)) e

  with-IsEntry :
      (read_bytes : Option (List ℕ)) (t : Touched)
      → ((bytes : List ℕ) → read_bytes ≡ some bytes → length bytes ≡ 32)
      → All IsEntry t.accounts
      → All IsEntry (with_account texts blake2 base58 prefix read_bytes t).accounts
  with-IsEntry none t size h = h
  with-IsEntry (some bytes) t size h =
      put-All IsEntry (encode blake2 base58 bytes prefix) bytes t.accounts (refl, size bytes refl) h

  touch_accounts-IsEntry :
      (names : List (List ℕ)) (fields : Fields) (t : Touched)
      → All IsEntry t.accounts
      → All IsEntry (touch_accounts texts blake2 base58 prefix names fields t).accounts
  unfolding touch_accounts
  touch_accounts-IsEntry [] fields t h = h
  touch_accounts-IsEntry (name ∷ names) fields t h =
      let value = get_field name fields in
      touch_accounts-IsEntry names fields
        (with_account texts blake2 base58 prefix (field_account texts value) t)
        (with-IsEntry (field_account texts value) t (field_account-length value) h)

  username-IsEntry :
      (name : Option (List ℕ)) (t : Touched)
      → All IsEntry t.accounts
      → All IsEntry (with_username name t).accounts
  username-IsEntry none t h = h
  username-IsEntry (some name) t h = h

  registrars-IsEntry :
      (b : Bool) (t : Touched) → All IsEntry t.accounts → All IsEntry (with_registrars b t).accounts
  registrars-IsEntry true t h = h
  registrars-IsEntry false t h = h

  touch_fields-IsEntry :
      (value : Json) (t : Touched)
      → All IsEntry t.accounts
      → All IsEntry (touch_fields texts blake2 base58 prefix value t).accounts
  touch_fields-IsEntry (object fields) t h =
      username-IsEntry (field_username texts (get_field username_field fields))
        (touch_accounts texts blake2 base58 prefix account_fields fields t)
        (touch_accounts-IsEntry account_fields fields t h)
  touch_fields-IsEntry null t h = h
  touch_fields-IsEntry (boolean b) t h = h
  touch_fields-IsEntry (number n) t h = h
  touch_fields-IsEntry (text s) t h = h
  touch_fields-IsEntry (array items) t h = h

  collect_into-IsEntry :
      (events : List NewEvent) (t : Touched)
      → All IsEntry t.accounts
      → All IsEntry (collect_into texts blake2 base58 prefix events t).accounts
  unfolding collect_into touch_event
  collect_into-IsEntry [] t h = h
  collect_into-IsEntry (event ∷ events) t h =
      collect_into-IsEntry events (touch_event texts blake2 base58 prefix event t)
        (elim (Bool-cases (list_eq event.pallet identity_pallet)) [
          | inr away ↦ rw away h
          | inl ours ↦
              let flag = list_eq (take (length registrar_prefix) event.variant) registrar_prefix in
              rw ours (
                touch_fields-IsEntry event.fields (with_registrars flag t)
                  (registrars-IsEntry flag t h))
        ])

  -- An address is among the accounts that a block has touched exactly when one of the block's events of the
  -- identity pallet holds, in one of the five account fields, an account with this address; and every
  -- account that is touched is the address of 32 bytes, which stand beside it.
  pub collect_lem :
      (events : List NewEvent)
      → ((address : List ℕ)
          → named address (collect texts blake2 base58 prefix events).accounts
            ≡ any_mentions address events)
        × All IsEntry (collect texts blake2 base58 prefix events).accounts
  unfolding collect
  collect_lem events = (
    λ x. named-collect_into x events nothing_touched ∙ sym (or_none (any_mentions x events)),
    collect_into-IsEntry events nothing_touched tt,
  )
