-- ===== src/Errno/Strings.antt =====
-- The texts of errorcodes.cpp for severities and error numbers. CPLE_AWSError is defined by the
-- GDAL versions that the library builds against.
use gdal_warp_bindings.Base.{ℕ, String, ℤ, pos, negsuc, ◌==◌, if◌then◌else◌}

-- GDAL's `CPLErr`; `ce_other` is a value that the enumeration does not name.
pub data CplErr : Type 0 where
  ce_none ce_debug ce_warning ce_failure ce_fatal : CplErr
  ce_other : ℕ → CplErr

unfoldable pub severity_string : CplErr → String
severity_string ce_none = "\u{1b}[32;1mNON-ERROR(0)"
severity_string ce_debug = "\u{1b}[36;1mDEBUG(1)"
severity_string ce_warning = "\u{1b}[33;1mWARNING(2)"
severity_string ce_failure = "\u{1b}[31;1mFAILURE(3)"
severity_string ce_fatal = "\u{1b}[31;1m\u{1b}[103;1mUNRECOVERABLE(4)"
severity_string (ce_other n) = "\u{1b}[34;1mUNCLASSIFIED"

unfoldable pub severity_string_nonansi : CplErr → String
severity_string_nonansi ce_none = "NON-ERROR(0)"
severity_string_nonansi ce_debug = "DEBUG(1)"
severity_string_nonansi ce_warning = "WARNING(2)"
severity_string_nonansi ce_failure = "FAILURE(3)"
severity_string_nonansi ce_fatal = "UNRECOVERABLE(4)"
severity_string_nonansi (ce_other n) = "UNCLASSIFIED"

-- The cases of the switch from the number `n` on.
aws_error_string : ℕ → String
aws_error_string n =
    if n == 12
    then "CPLE_AWSBucketNotFound(12) \"AWSBucketNotFound.\""
    else if n == 13
    then "CPLE_AWSObjectNotFound(13) \"AWSObjectNotFound.\""
    else if n == 14
    then "CPLE_AWSAccessDenied(14) \"AWSAccessDenied.\""
    else if n == 15
    then "CPLE_AWSInvalidCredentials(15) \"AWSInvalidCredentials.\""
    else if n == 16
    then "CPLE_AWSSignatureDoesNotMatch(16) \"AWSSignatureDoesNotMatch.\""
    else if n == 17
    then "CPLE_AWSError(17) \"VSIE_AWSError.\""
    else "Unknown error..."

number_error_string : ℕ → String
unfolding aws_error_string
number_error_string n =
    if n == 0
    then "CPLE_None(0) \"No error.\""
    else if n == 1
    then "CPLE_AppDefined(1) \"Application defined error.\""
    else if n == 2
    then "CPLE_OutOfMemory(2) \"Out of memory error.\""
    else if n == 3
    then "CPLE_FileIO(3) \"File I/O error.\""
    else if n == 4
    then "CPLE_OpenFailed(4) \"Open failed.\""
    else if n == 5
    then "CPLE_IllegalArg(5) \"Illegal argument.\""
    else if n == 6
    then "CPLE_NotSupported(6) \"Not supported.\""
    else if n == 7
    then "CPLE_AssertionFailed(7) \"Assertion failed.\""
    else if n == 8
    then "CPLE_NoWriteAccess(8) \"No write access.\""
    else if n == 9
    then "CPLE_UserInterrupt(9) \"User interrupted\""
    else if n == 10
    then "CPLE_ObjectNull(10) \"NULL object.\""
    else if n == 11
    then "CPLE_HttpResponse(11) \"HTTP response.\""
    else aws_error_string n

unfoldable pub error_string : ℤ → String
unfolding number_error_string
error_string (pos n) = number_error_string n
error_string (negsuc n) = "Unknown error..."
