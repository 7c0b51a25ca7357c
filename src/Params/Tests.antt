-- ===== src/Params/Tests.antt =====
-- The scan of an index on a concrete name.
use csp_proc.Common.{◌+◌, ◌≤◌, ◌≡◌, ◌≢◌, refl, [], ◌∷◌, length}
use csp_proc.Common.Int.{pos, negsuc}
use csp_proc.Params.{
  Text, proc_param_scan_offset, second_token, sscanf_int, number_in, decimal, index_length,
  cut_index,
}
use csp_proc.Params.Offset.{FitsInt, proc_param_scan_offset_le}

-- a[12]
abbrev element : Text
element = 97 ∷ 91 ∷ 49 ∷ 50 ∷ 93 ∷ []

element_offset : proc_param_scan_offset (λ z. z) element ≡ pos 12
unfolding proc_param_scan_offset second_token sscanf_int number_in decimal
element_offset = refl

element_name : cut_index element (pos 12) ≡ 97 ∷ []
unfolding cut_index index_length
element_name = refl

an_index : pos 12 ≢ negsuc 0
an_index e = cc

element_fits : FitsInt (number_in (second_token element))
unfolding second_token number_in decimal
element_fits = refl

proc_param_scan_offset_le_example : index_length (pos 12) + 2 ≤ length element
proc_param_scan_offset_le_example =
    proc_param_scan_offset_le (λ z. z) element (pos 12) element_fits element_offset an_index
