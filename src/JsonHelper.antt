-- ===== src/JsonHelper.antt =====
-- jsonhelper.cc: results of queries as JSON. The library nlohmann::json is a parameter.
pub mod Json
pub mod Pack
pub mod Members
pub mod Tests
