-- ===== src/Unit/Errors/Codes.antt =====
-- The error codes of pkg/unit/errors.go that its functions and the modelled units name. An ErrorCode is
-- a Go string.
use ai_inference_managed_by.Base.{String}

abbrev pub err_code_success : String
err_code_success = "00000"

abbrev pub err_code_unknown : String
err_code_unknown = "00001"

abbrev pub err_code_invalid_request : String
err_code_invalid_request = "00002"

abbrev pub err_code_unauthorized : String
err_code_unauthorized = "00003"

abbrev pub err_code_not_found : String
err_code_not_found = "00004"

abbrev pub err_code_already_exists : String
err_code_already_exists = "00005"

abbrev pub err_code_timeout : String
err_code_timeout = "00006"

abbrev pub err_code_rate_limited : String
err_code_rate_limited = "00007"

abbrev pub err_code_internal_error : String
err_code_internal_error = "00008"

abbrev pub err_code_invalid_input : String
err_code_invalid_input = "00009"

abbrev pub err_code_validation_failed : String
err_code_validation_failed = "00010"

abbrev pub err_code_model_not_found : String
err_code_model_not_found = "00100"

abbrev pub err_code_model_already_exists : String
err_code_model_already_exists = "00101"

abbrev pub err_code_engine_not_found : String
err_code_engine_not_found = "00200"

abbrev pub err_code_engine_already_running : String
err_code_engine_already_running = "00201"

abbrev pub err_code_inference_timeout : String
err_code_inference_timeout = "00303"

abbrev pub err_code_inference_rate_limited : String
err_code_inference_rate_limited = "00304"

abbrev pub err_code_resource_insufficient : String
err_code_resource_insufficient = "00400"

abbrev pub err_code_resource_slot_not_found : String
err_code_resource_slot_not_found = "00402"

abbrev pub err_code_device_not_found : String
err_code_device_not_found = "00500"

abbrev pub err_code_service_not_found : String
err_code_service_not_found = "00600"

abbrev pub err_code_app_not_found : String
err_code_app_not_found = "00700"

abbrev pub err_code_pipeline_not_found : String
err_code_pipeline_not_found = "00800"

abbrev pub err_code_alert_rule_not_found : String
err_code_alert_rule_not_found = "00900"

abbrev pub err_code_remote_not_enabled : String
err_code_remote_not_enabled = "01000"

abbrev pub err_code_remote_exec_failed : String
err_code_remote_exec_failed = "01001"

abbrev pub err_code_recipe_not_found : String
err_code_recipe_not_found = "01100"

abbrev pub err_code_recipe_already_exists : String
err_code_recipe_already_exists = "01101"

abbrev pub err_code_recipe_invalid : String
err_code_recipe_invalid = "01102"

abbrev pub err_code_recipe_apply_failed : String
err_code_recipe_apply_failed = "01103"

abbrev pub err_code_skill_not_found : String
err_code_skill_not_found = "01200"

abbrev pub err_code_skill_already_exists : String
err_code_skill_already_exists = "01201"

abbrev pub err_code_skill_invalid : String
err_code_skill_invalid = "01202"

abbrev pub err_code_builtin_skill_immutable : String
err_code_builtin_skill_immutable = "01203"

abbrev pub err_code_agent_not_enabled : String
err_code_agent_not_enabled = "01300"

abbrev pub err_code_agent_llm_error : String
err_code_agent_llm_error = "01301"

abbrev pub err_code_conversation_not_found : String
err_code_conversation_not_found = "01302"
