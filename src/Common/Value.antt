-- ===== src/Common/Value.antt =====
-- Python values that cross the API as JSON (`dict[str, Any]`): the parameters of a job and the
-- configuration of a schedule. Floats do not occur where the services look.
use proyecto.Common.{ℕ, String, Bool, Option, none, some, str_eq, if◌then◌else◌}

mutual
  pub data Dict : Type 0 where
    empty : Dict
    entry : String → Value → Dict → Dict

  pub data Value : Type 0 where
    null : Value
    bool : Bool → Value
    int : ℕ → Value
    negative : ℕ → Value  -- -(n + 1)
    text : String → Value
    dict : Dict → Value
    list : Elements → Value

  pub data Elements : Type 0 where
    no_more : Elements
    element : Value → Elements → Elements

-- `d.get(key)`, where a missing key is `none`
unfoldable pub get : Dict → String → Option Value
get empty key = none
get (entry k v rest) key = let found = get rest key in if str_eq k key then some v else found
