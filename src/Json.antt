-- ===== src/Json.antt =====
-- The values of a JSON document, as the audit payloads hold them.
use razor_pay.Prelude.{ℤ, String}

-- A number is in ten-thousandths; `null` stands for it, and for a Boolean, a time and the like.
mutual
  pub data Json : Type 0 where
    null : Json
    num : ℤ → Json
    str : String → Json
    arr : Items → Json
    obj : Fields → Json

  pub data Items : Type 0 where
    nil : Items
    cons : Json → Items → Items

  pub data Fields : Type 0 where
    end : Fields
    field : String → Json → Fields → Fields
