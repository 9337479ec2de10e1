-- ===== src/Auth/Sample.antt =====
-- A comparison of texts that behaves as the one of the crate `subtle` is documented to.
use meta_agent_control_plane.Prelude.{string_eq}
use meta_agent_control_plane.Auth.{ConstantTime}

abbrev pub text_comparison : ConstantTime
text_comparison = record { ct_eq = string_eq.is_same; ct_eq_iff = string_eq.is_same_iff }
