-- ===== src/Json.antt =====
-- The JSON values that the harness reads and writes. Floats occur in no document of the protocol.
-- A dict is a list of its entries; `json.loads` gives each key once.
pub mod Access
pub mod Equality
pub mod Size
use kozo.Base.{String, Bool}
use kozo.Base.Int.{ℤ}

mutual
  pub data Json : Type 0 where
    null : Json
    bool : Bool → Json
    int : ℤ → Json
    str : String → Json
    arr : Items → Json
    obj : Fields → Json

  pub data Items : Type 0 where
    nil : Items
    cons : Json → Items → Items

  pub data Fields : Type 0 where
    end : Fields
    field : String → Json → Fields → Fields
