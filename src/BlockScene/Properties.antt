-- ===== src/BlockScene/Properties.antt =====
-- block-scene/src/blockpropertiesmodel.cpp: the table of a block's properties, over the scene's ports.
mod Kept
mod Tests
use cosec_examples.Prelude.{
  ℕ, zero, suc, ◌+◌, Bool, true, false, not, ◌&&◌, ◌||◌, Option, none, some, List, [], ◌∷◌, ◌==◌,
  ltb, leb, if◌then◌else◌, length,
}
use cosec_examples.BlockScene.Ports.{
  Address, PortType, input_type, output_type, Scene, set_ios, ◌>>=◌,
}

abbrev pub max_ports : ℕ
max_ports = 16

abbrev pub Text : Type 0
Text = List ℕ

-- An int.
pub data ℤ : Type 0 where
  pos negsuc : ℕ → ℤ

-- A QVariant: toString, and toInt with its ok.
pub record Variant (V : Type 0) : Type 0 where
  pub to_string : V → Text
  pub to_int : V → Option ℤ

-- A block's state, less its size.
pub record Block : Type 0 where
  pub name : Text
  pub inputs : List Address
  pub outputs : List Address

pub data Role : Type 0 where
  display_role edit_role other_role : Role

-- A valid index of the table.
pub record Index : Type 0 where
  pub row : ℕ
  pub column : ℕ

-- What data() gives.
pub data Data : Type 0 where
  invalid : Data
  label_name label_inputs label_outputs : Data
  text : Text → Data
  number : ℕ → Data

abbrev is_display : Role → Bool
is_display display_role = true
is_display edit_role = false
is_display other_role = false

abbrev pub is_edit : Role → Bool
is_edit display_role = false
is_edit edit_role = true
is_edit other_role = false

-- The row's value, in the column of names or that of values.
unfoldable pub row_data : Index → Block → Data
row_data i b =
    if i.row == 0
    then (if i.column == 0 then label_name else text b.name)
    else if i.row == 1
    then (if i.column == 0 then label_inputs else number (length b.inputs))
    else if i.row == 2
    then (if i.column == 0 then label_outputs else number (length b.outputs))
    else invalid

unfoldable pub data_of : Option Index → Role → Block → Data
data_of none role b = invalid
data_of (some i) role b =
    if is_display role || (i.column == 1 && is_edit role) then row_data i b else invalid

unfoldable pub row_count : Option Index → Option Block → ℕ
row_count none (some b) = 3
row_count none none = 0
row_count (some i) b = 0

unfoldable pub column_count : Option Index → ℕ
column_count none = 2
column_count (some i) = 0

-- bool ok; int n = value.toInt(&ok); if(!ok||n<0||n>maxPorts) return false;
unfoldable pub port_number : Option ℤ → Option ℕ
port_number none = none
port_number (some (pos n)) = if ltb max_ports n then none else some n
port_number (some (negsuc n)) = none

-- What a call of setData returns, and leaves.
abbrev pub Set : Type 0
Set = Bool × Block × Scene

-- block_->setInputs(n);
unfoldable pub set_inputs : ℕ → Block → Scene → Option Set
set_inputs n b s = do
  r ← set_ios n input_type b.inputs s
  some (true, record b { inputs = r.0 }, r.1)

-- block_->setOutputs(n);
unfoldable pub set_outputs : ℕ → Block → Scene → Option Set
set_outputs n b s = do
  r ← set_ios n output_type b.outputs s
  some (true, record b { outputs = r.0 }, r.1)

unfoldable pub checked : Option ℕ → (ℕ → Option Set) → Block → Scene → Option Set
checked none f b s = some (false, b, s)
checked (some n) f b s = f n

module _ {V : Type 0} (variant : Variant V) where
  -- The switch on the row.
  unfoldable pub set_row : ℕ → V → Block → Scene → Option Set
  set_row row value b s =
      if row == 0
      then some (true, record b { name = variant.to_string value }, s)
      else if row == 1
      then checked (port_number (variant.to_int value)) (λ n. set_inputs n b s) b s
      else if row == 2
      then checked (port_number (variant.to_int value)) (λ n. set_outputs n b s) b s
      else some (false, b, s)

  unfoldable pub set_data : Option Index → V → Role → Block → Scene → Option Set
  set_data none value role b s = some (false, b, s)
  set_data (some i) value role b s =
      if not (i.column == 1) || not (is_edit role)
      then some (false, b, s)
      else set_row i.row value b s
