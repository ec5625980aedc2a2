-- ===== src/Patch/Merge.antt =====
-- crates/h3s-apiserver/src/patch/strategic.rs: `apply`, `merge`, `map`, `fresh` and `list`.
-- Each call is on a part of the patch, so the recursion is on its structure.
use hedronetes_h3s.Prelude.{
  suc, ◌+◌, String, List, [], ◌∷◌, ◌++◌, Bool, true, false, not, Option, none, some, if◌then◌else◌,
  length, any, keep, ok, err, str_eq, ℕ,
}
use hedronetes_h3s.Prelude.Results
use hedronetes_h3s.Json.{
  Value, array, object, Items, nil, cons, Fields, field, end, get_field, or_null, items_list,
  list_items, elements, is_null, as_str, value_eq, get, ◌!◌,
}
use hedronetes_h3s.Patch.Budget.{
  R, Work, ◌>>=◌, ◌>>◌, pure, lift, spend, saturating_mul, enter, invalid,
}
use hedronetes_h3s.Patch.Schema.{
  is_some, is_directive, resolve, field_schema, strategy, merge_key, identity, has_id, check_ids,
}
use hedronetes_h3s.Patch.Fields.{remove_field, fields_of, has, insert_some}
use hedronetes_h3s.Patch.Reorder.{reorder}
use hedronetes_h3s.Patch.Directives.{retained, deletions, orderings}

abbrev pub push_some : Option Value → Items → Items
push_some none vs = vs
push_some (some v) vs = cons v vs

abbrev pub add_field : String → Option Value → Fields → Fields
add_field k none fs = fs
add_field k (some v) fs = field k v fs

unfoldable mutual
  pub fresh : Value → ℕ → Work (Option Value)
  fresh (object fs) depth =
      enter depth
      >> (if is_some (get_field "$patch" fs)
          then pure none
          else (fresh_fields fs (suc depth) >>= λ gs. pure (some (object gs))))
  fresh (array vs) depth =
      enter depth >> (fresh_items vs (suc depth) >>= λ ws. pure (some (array ws)))
  fresh v depth = enter depth >> pure (some v)

  pub fresh_fields : Fields → ℕ → Work Fields
  fresh_fields end depth = pure end
  fresh_fields (field k v fs) depth =
      if is_null v
      then fresh_fields fs depth
      else fresh v depth >>= λ w. fresh_fields fs depth >>= λ gs. pure (add_field k w gs)

  pub fresh_items : Items → ℕ → Work Items
  fresh_items nil depth = pure nil
  fresh_items (cons v vs) depth =
      fresh v depth >>= λ w. fresh_items vs depth >>= λ ws. pure (push_some w ws)

abbrev pub map_directive : Option String → Fields → R Value
map_directive none patch = err (invalid "invalid strategic map $patch directive")
map_directive (some text) patch =
    if str_eq text "replace"
    then ok (object (remove_field "$patch" patch))
    else if str_eq text "delete"
    then ok (object end)
    else err (invalid "invalid strategic map $patch directive")

-- The first loop of `list`: what it leaves of the old items, the ordinary items of the patch, and
-- whether it is a replacement.
pub record Triage : Type 0 where
  pub kept : List Value
  pub ordinary : List Value
  pub replace : Bool

abbrev pub list_directive : Option String → Value → Option String → Triage → R Triage
list_directive key item none s = err (invalid "invalid strategic list $patch directive")
list_directive key item (some text) s =
    if str_eq text "replace"
    then ok (record s { replace = true })
    else if str_eq text "delete"
    then Results.◌>>=◌ (identity key item)
        (λ id. ok (record s { kept = keep (λ v. not (has_id key id v)) s.kept }))
    else err (invalid "invalid strategic list $patch directive")

abbrev pub sort_item : Option String → Value → Option Value → Triage → R Triage
sort_item key item none s =
    Results.◌>>=◌ (identity key item) (λ id. ok (record s { ordinary = s.ordinary ++ item ∷ [] }))
sort_item key item (some directive) s =
    if is_some key
    then list_directive key item (as_str directive) s
    else err (invalid "$patch list directives require a keyed list")

abbrev pub sort_items : Option String → List Value → Triage → R Triage
sort_items key [] s = ok s
sort_items key (item ∷ items) s =
    Results.◌>>=◌ (sort_item key item (get item "$patch") s) (sort_items key items)

-- The first item with an identity, with what stands before and after it.
pub record Place : Type 0 where
  pub before : List Value
  pub item : Value
  pub after : List Value

abbrev pub shift : Value → Option Place → Option Place
shift v none = none
shift v (some p) = some (record p { before = v ∷ p.before })

abbrev pub find_id : Option String → Value → List Value → Option Place
find_id key id [] = none
find_id key id (v ∷ vs) =
    let rest = shift v (find_id key id vs) in
    if has_id key id v then some (record { before = []; item = v; after = vs }) else rest

-- `unique`: the values less those that stand before them.
abbrev pub unique_from : List Value → List Value → List Value
unique_from unique [] = unique
unique_from unique (v ∷ vs) =
    if any (value_eq v) unique then unique_from unique vs else unique_from (unique ++ v ∷ []) vs

abbrev pub deduplicate : Option String → List Value → Work (List Value)
deduplicate (some key) result = pure result
deduplicate none result =
    spend (saturating_mul (length result) (length result)) >> pure (unique_from [] result)

-- What a field becomes, given its old value and the merge of the two.
abbrev pub merge_field : Value → Value → ℕ → Work Value → Work (Option Value)
merge_field v old depth merged =
    if is_null old then fresh v depth else (merged >>= λ new. pure (some new))

-- An ordinary item, given the place of its identity and the merge with what stands there.
abbrev pub merge_item :
    Value → Option Place → Option String → (Value → Work Value) → List Value → Work (List Value)
merge_item v none key merged result = pure (result ++ v ∷ [])
merge_item v (some p) none merged result = pure result
merge_item v (some p) (some key) merged result =
    merged p.item >>= λ new. pure (p.before ++ new ∷ p.after)

-- `list` after its first loop, given its loop over the ordinary items
abbrev pub finish_list :
    Option String → List Value → (List Value → Work (List Value)) → Triage → Work Value
finish_list key old merged s =
    if s.replace
    then pure (array (list_items s.ordinary))
    else merged s.kept >>= λ items. deduplicate key items >>= λ result.
        reorder result s.ordinary old key >>= λ sorted. pure (array (list_items sorted))

-- `list`
abbrev pub list_value :
    List Value → List Value → Option String → (List Value → Work (List Value)) → Work Value
list_value old patch key merged =
    spend (saturating_mul (length old + length patch) (length patch + 1))
    >> lift (check_ids key old)
    >> (lift (sort_items key patch (record { kept = old; ordinary = []; replace = false }))
        >>= finish_list key old merged)

module _ (schemas : Value) where
  -- `map`, given the patch's `$patch` and the loop over the ordinary fields
  abbrev pub map_value : Value → Fields → Option Value → Value → (Fields → Work Fields) → Work Value
  map_value original fs (some directive) schema merged = lift (map_directive (as_str directive) fs)
  map_value original fs none schema merged = retained fs (fields_of original) >>= λ start.
      merged start >>= λ fields. deletions schemas fs schema fields >>= λ trimmed.
      orderings schemas fs fs schema original trimmed >>= λ result. pure (object result)

  unfoldable mutual
    pub merge : Value → Value → Value → ℕ → Work Value
    merge original (object fs) schema depth =
        enter depth
        >> map_value original fs (get_field "$patch" fs) schema (merge_fields fs schema depth)
    merge original (array vs) schema depth =
        let key = merge_key schema in
        let merged = merge_items vs key (resolve schemas schema ! "items") (suc depth) in
        enter depth
        >> (if strategy schema "merge"
            then list_value (elements original) (items_list vs) key merged
            else pure (array vs))
    merge original patch schema depth = enter depth >> pure patch

    -- The loop of `map` over the ordinary fields
    pub merge_fields : Fields → Value → ℕ → Fields → Work Fields
    merge_fields end schema depth result = pure result
    merge_fields (field k v fs) schema depth result =
        let old = or_null (get_field k result) in
        let merged = merge old v (field_schema schemas schema k) (suc depth) in
        if is_directive k
        then merge_fields fs schema depth result
        else if is_null v
        then merge_fields fs schema depth (remove_field k result)
        else merge_field v old (suc depth) merged >>= λ new.
            merge_fields fs schema depth (insert_some k new (remove_field k result))

    -- The loop of `list` over the ordinary items, those without `$patch`
    pub merge_items : Items → Option String → Value → ℕ → List Value → Work (List Value)
    merge_items nil key schema depth result = pure result
    merge_items (cons v vs) key schema depth result =
        if has v "$patch"
        then merge_items vs key schema depth result
        else lift (identity key v) >>= λ id.
            merge_item v (find_id key id result) key (λ old. merge old v schema depth) result
            >>= merge_items vs key schema depth

  -- The bound on the work of one patch
  unfoldable pub apply_to : Option String → Value → Value → R Value
  apply_to none original patch = err (
      invalid
        "strategic merge is not implemented for this resource; use a JSON merge or a full update")
  apply_to (some root) original patch =
      Results.◌>>=◌ (merge original patch (schemas ! "definitions" ! root) 0 1000000) (λ r. ok r.0)

  -- `apply`, for the kind of a resource
  unfoldable pub apply : String → Value → Value → R Value
  apply kind original (object fs) =
      apply_to (as_str (schemas ! "roots" ! kind)) original (object fs)
  apply kind original patch = err (invalid "strategic patch must be an object")
