-- ===== src/Json/Order.antt =====
-- Objects that differ only in the order of their fields, at any depth, are rendered alike.
use veriproc.Prelude.{String, Option, some, List, [], ◌∷◌, ◌≡◌, ◌≢◌, refl, ap, ◌∙◌, arith}
use veriproc.Prelude.Text.{codes}
use veriproc.Prelude.Text.Order.{text_less_trans, text_less_other}
use veriproc.Json.{
  Leaf, Json, Items, Fields, Member, place, sort, write, write_items, write_rest, members,
  write_members, ◌<+>◌,
}

mutual
  -- The same value, whatever the order in which the objects list their fields.
  pub data SameJson : Json → Json → Type 0 where
    leaf : {x : Leaf} → SameJson (Json.leaf x) (Json.leaf x)
    array : {s t : Items} → SameItems s t → SameJson (Json.array s) (Json.array t)
    object : {s t : Fields} → SameFields s t → SameJson (Json.object s) (Json.object t)

  pub data SameItems : Items → Items → Type 0 where
    no_items : SameItems Items.no_items Items.no_items
    item :
        {x y : Json} {s t : Items}
        → SameJson x y
        → SameItems s t
        → SameItems (Items.item x s) (Items.item y t)

  pub data SameFields : Fields → Fields → Type 0 where
    no_fields : SameFields Fields.no_fields Fields.no_fields
    field :
        {key : String} {x y : Json} {s t : Fields}
        → SameJson x y
        → SameFields s t
        → SameFields (Fields.field key x s) (Fields.field key y t)
    swapped :
        {k l : String} {x y : Json} {s : Fields}
        → codes k ≢ codes l
        → SameFields (Fields.field k x (Fields.field l y s)) (Fields.field l y (Fields.field k x s))
    trans : {r s t : Fields} → SameFields r s → SameFields s t → SameFields r t

place-place :
    (m n : Member) (ms : List Member)
    → codes m.0 ≢ codes n.0
    → place m (place n ms) ≡ place n (place m ms)
unfolding place
place-place m n [] ne = ground (arith, text_less_other (codes m.0) (codes n.0) ne)
place-place m n (k ∷ ms) ne = ground (
  arith,
  text_less_other (codes m.0) (codes n.0) ne,
  text_less_trans (codes m.0) (codes n.0) (codes k.0),
  text_less_trans (codes n.0) (codes m.0) (codes k.0),
  place-place m n ms ne,
)

module _ (marshal : Leaf → Option String) where
  mutual
    unfolding write sort

    write_json-SameJson : {x y : Json} → SameJson x y → write marshal x ≡ write marshal y
    write_json-SameJson SameJson.leaf = refl
    write_json-SameJson (SameJson.array h) = ap (λ t. some "[" <+> t) (write_items-SameItems h)
    write_json-SameJson (SameJson.object h) =
        ap (λ ms. some "{" <+> write_members marshal ms) (sort-SameFields h)

    write_items-SameItems :
        {s t : Items} → SameItems s t → write_items marshal s ≡ write_items marshal t
    write_items-SameItems SameItems.no_items = refl
    write_items-SameItems (SameItems.item h hs) =
        cc (write_json-SameJson h, write_rest-SameItems hs)

    write_rest-SameItems :
        {s t : Items} → SameItems s t → write_rest marshal s ≡ write_rest marshal t
    write_rest-SameItems SameItems.no_items = refl
    write_rest-SameItems (SameItems.item h hs) = cc (write_json-SameJson h, write_rest-SameItems hs)

    sort-SameFields :
        {s t : Fields} → SameFields s t → sort (members marshal s) ≡ sort (members marshal t)
    sort-SameFields SameFields.no_fields = refl
    sort-SameFields (SameFields.field h hs) = cc (write_json-SameJson h, sort-SameFields hs)
    sort-SameFields (SameFields.swapped ne) = place-place _ _ _ ne
    sort-SameFields (SameFields.trans h k) = sort-SameFields h ∙ sort-SameFields k

  -- Canonical JSON does not depend on the order in which objects list their fields, at any depth:
  -- two such values are rendered alike, or fail alike.
  pub write-SameJson : (x y : Json) → SameJson x y → write marshal x ≡ write marshal y
  write-SameJson x y same = write_json-SameJson same
