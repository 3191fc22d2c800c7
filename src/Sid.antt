-- ===== src/Sid.antt =====
-- The SID channel ordering: `_matrix_sid2acn` of libambix/src/adaptor_acn.c.
-- An entry is written as a float32_t and read back as an integer: the integer that the conversion gives.
pub mod Laws
pub mod Places
pub mod Tests
use libambix.Base.{
  ℕ, zero, suc, ◌+◌, ◌-◌, ◌*◌, ◌^◌, ◌/◌, ◌%◌, leb, map, Bool, List, [], ◌∷◌, ◌++◌, Option, none,
  some, ltb, if◌then◌else◌, ℤ, pos, negsuc,
}
use libambix.Channels.{order2channels, channels2order}

-- The distance of the float32_t values, with 24 bits, around a number: from `unit` on, in steps to the double.
unfoldable pub spacing : (steps unit k : ℕ) → ℕ
spacing zero unit k = unit
spacing (suc steps) unit k =
    let rest = spacing steps (2 * unit) k in if ltb k (2 ^ 24 * unit) then unit else rest

-- `(float32_t)` of a number below 2 ^ 32: the nearest value, and the even one of two.
unfoldable pub float32_of : ℕ → ℕ
float32_of k =
    if leb k (2 ^ 24)
    then k
    else (let unit = spacing 8 1 k in
        let low = k / unit in
        let rest = k % unit in
        if ltb (2 * rest) unit
        then low * unit
        else if ltb unit (2 * rest)
        then (low + 1) * unit
        else (low + low % 2) * unit)

-- `for(index; index<maxindex; index+=2) *datap++=index+offset;`, by the distance to `maxindex`.
unfoldable pub ascending : ℕ → ℕ → ℕ → List ℕ
ascending zero index offset = []
ascending (suc zero) index offset = (index + offset) ∷ []
ascending (suc (suc left)) index offset = (index + offset) ∷ ascending left (index + 2) offset

-- `for(index; index>=0; index-=2) *datap++=index+offset;`
unfoldable pub descending : ℕ → ℕ → List ℕ
descending zero offset = (0 + offset) ∷ []
descending (suc zero) offset = (1 + offset) ∷ []
descending (suc (suc index)) offset = (suc (suc index) + offset) ∷ descending index offset

-- The entries of order `o`. `maxindex - 1` is -1 for an order with no channel.
unfoldable pub order_entries : ℕ → List ℕ
unfolding ascending descending
order_entries o =
    let offset = if ltb 0 o then order2channels (o - 1) else 0 in
    let maxindex = order2channels o - offset in
    ascending (maxindex - 1) 1 offset
    ++ (if ltb 0 maxindex then descending (maxindex - 1) offset else [])

-- `for(o; o<=order; o++)`, by the rounds left.
unfoldable pub orders_from : ℕ → ℕ → List ℕ
unfolding order_entries
orders_from zero o = []
orders_from (suc left) o = order_entries o ++ orders_from left (o + 1)

-- What is written to `data`; `none` is the result 0.
unfoldable pub sid2acn : (ℕ → ℕ) → ℕ → Option (List ℕ)
unfolding orders_from channels2order order2channels
sid2acn sqrt channels = elim (channels2order sqrt channels) [
  | pos order ↦ some (map float32_of (orders_from (order + 1) 0))
  | negsuc _ ↦ none
]
