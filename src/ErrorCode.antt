-- ===== src/ErrorCode.antt =====
-- include/cemb/error_codes.h: the general error codes.
-- `ErrorCode_t` is a `uint32_t`, so that applications can add codes; the library's own functions
-- return only the codes of the enumeration.
pub data ErrorCode : Type 0 where
  err_none err_generic_error err_not_initialised err_invalid_state err_no_mem : ErrorCode
  err_invalid_arg err_timeout err_out_of_bounds err_null_pointer err_noop : ErrorCode
  err_incomplete err_empty err_not_found err_override err_busy err_not_implemented : ErrorCode
