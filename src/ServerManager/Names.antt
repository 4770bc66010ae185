-- ===== src/ServerManager/Names.antt =====
-- The strings that `UserManagerResult_toString` and `GroupManagerResult_toString` return, as the
-- tables of utils/enum_helper.h generate them.
use c_chat_rooms_app.Base.{Bytes, codes}
use c_chat_rooms_app.UserManager.{UserManagerResult}
use c_chat_rooms_app.GroupManager.{GroupManagerResult}

unfoldable pub user_result : UserManagerResult → Bytes
user_result UserManagerResult.success = codes "USER_MANAGER_RESULT_SUCCESS"
user_result UserManagerResult.null_ptr = codes "USER_MANAGER_RESULT_NULL_PTR"
user_result UserManagerResult.invalid_argument = codes "USER_MANAGER_RESULT_INVALID_ARGUMENT"
user_result UserManagerResult.allocation_failed = codes "USER_MANAGER_RESULT_ALLOCATION_FAILED"
user_result UserManagerResult.internal_error = codes "USER_MANAGER_RESULT_INTERNAL_ERROR"
user_result UserManagerResult.bad_creds = codes "USER_MANAGER_RESULT_BAD_CREDS"
user_result UserManagerResult.name_taken = codes "USER_MANAGER_RESULT_NAME_TAKEN"
user_result UserManagerResult.not_found = codes "USER_MANAGER_RESULT_NOT_FOUND"
user_result UserManagerResult.not_in_group = codes "USER_MANAGER_RESULT_NOT_IN_GROUP"
user_result UserManagerResult.already_in_group = codes "USER_MANAGER_RESULT_ALREADY_IN_GROUP"
user_result UserManagerResult.not_logged = codes "USER_MANAGER_RESULT_NOT_LOGGED"
user_result UserManagerResult.already_log = codes "USER_MANAGER_RESULT_ALREADY_LOG"
user_result UserManagerResult.malformed = codes "USER_MANAGER_RESULT_MALFORMED"

unfoldable pub group_result : GroupManagerResult → Bytes
group_result GroupManagerResult.success = codes "GROUP_MANAGER_RESULT_SUCCESS"
group_result GroupManagerResult.null_ptr = codes "GROUP_MANAGER_RESULT_NULL_PTR"
group_result GroupManagerResult.name_taken = codes "GROUP_MANAGER_RESULT_NAME_TAKEN"
group_result GroupManagerResult.name_too_long = codes "GROUP_MANAGER_RESULT_NAME_TOO_LONG"
group_result GroupManagerResult.allocation_failed = codes "GROUP_MANAGER_RESULT_ALLOCATION_FAILED"
group_result GroupManagerResult.not_found = codes "GROUP_MANAGER_RESULT_NOT_FOUND"
group_result GroupManagerResult.empty_group = codes "GROUP_MANAGER_RESULT_EMPTY_GROUP"
group_result GroupManagerResult.not_empty = codes "GROUP_MANAGER_RESULT_NOT_EMPTY"
group_result GroupManagerResult.internal_error = codes "GROUP_MANAGER_RESULT_INTERNAL_ERROR"
