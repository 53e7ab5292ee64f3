-- ===== src/Json.antt =====
-- internal/canonjson/canonjson.go, and canonicalJSON of internal/tasks/service.go, which has the
-- same text: a JSON value rendered with the keys of its objects sorted. An object is a Go map: the
-- fields in any order, with no key twice. `marshal` stands for json.Marshal of a value that is
-- neither a map nor a slice, and may fail.
pub mod Order
use Prim.Native.String
use veriproc.Prelude.{
  ℕ, String, Bool, true, false, Option, none, some, List, [], ◌∷◌, if◌then◌else◌,
}
use veriproc.Prelude.Text.{codes}
use veriproc.Prelude.Text.Order.{text_less}

-- A number that is negative or not whole is named by its literal.
pub data Leaf : Type 0 where
  text : String → Leaf
  number : ℕ → Leaf
  decimal : String → Leaf
  truth : Bool → Leaf
  null : Leaf

mutual
  pub data Json : Type 0 where
    leaf : Leaf → Json
    array : Items → Json
    object : Fields → Json

  pub data Items : Type 0 where
    no_items : Items
    item : Json → Items → Items

  pub data Fields : Type 0 where
    no_fields : Fields
    field : String → Json → Fields → Fields

infixr 65 ◌<+>◌
abbrev pub ◌<+>◌ : Option String → Option String → Option String
none <+> t = none
some s <+> none = none
some s <+> some t = some (String.◌++◌ s t)

-- A key and the rendering of its value.
abbrev pub Member : Type 0
Member = String × Option String

unfoldable pub place : Member → List Member → List Member
place m [] = m ∷ []
place m (n ∷ ms) =
    let rest = place m ms in if text_less (codes m.0) (codes n.0) then m ∷ n ∷ ms else n ∷ rest

-- sort.Strings(keys), with the values that belong to the keys
unfoldable pub sort : List Member → List Member
sort [] = []
sort (m ∷ ms) = place m (sort ms)

module _ (marshal : Leaf → Option String) where
  abbrev pub write_member : Member → Option String
  write_member m = marshal (text m.0) <+> some ":" <+> m.1

  unfoldable pub write_members : List Member → Option String
  write_members [] = some "}"
  write_members (m ∷ []) = write_member m <+> some "}"
  write_members (m ∷ n ∷ ms) = write_member m <+> some "," <+> write_members (n ∷ ms)

  unfoldable mutual
    pub write : Json → Option String
    write (leaf x) = marshal x
    write (array items) = some "[" <+> write_items items
    write (object fields) = some "{" <+> write_members (sort (members fields))

    pub write_items : Items → Option String
    write_items no_items = some "]"
    write_items (item x rest) = write x <+> write_rest rest

    pub write_rest : Items → Option String
    write_rest no_items = some "]"
    write_rest (item x rest) = some "," <+> write x <+> write_rest rest

    pub members : Fields → List Member
    members no_fields = []
    members (field key value rest) = (key, write value) ∷ members rest
