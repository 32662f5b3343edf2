-- ===== src/S3/Tests/Configs.antt =====
-- Settings and the configuration that they make.
use m_awsexp.Common.Int.{◌*ℤ◌}
use m_awsexp.Common.{codes, some, ◌≡◌, refl, none}
use m_awsexp.S3.TransferConfig.{
  build_config, nothing, human_readable_to_bytes, RuntimeConfig, Settings, string,
}
use m_awsexp.Common.Int.{pos}

abbrev settings : Settings
settings = record {
  multipart_threshold = some (string (codes "16MB"));
  multipart_chunksize = some (string (codes " 1024KiB"));
  max_concurrent_requests = some (string (codes "+20"));
  max_queue_size = none;
}

abbrev runtime_config : RuntimeConfig
runtime_config = record {
  multipart_threshold = some (pos 16777216);
  multipart_chunksize = some (pos 1048576);
  max_concurrent_requests = some (pos 20);
  max_queue_size = some (pos 1000);
}

settings_built : build_config settings ≡ some runtime_config
unfolding build_config ◌*ℤ◌
settings_built = refl

negative_example :
    build_config (record settings { max_queue_size = some (string (codes "-1")) }) ≡ none
unfolding build_config ◌*ℤ◌
negative_example = refl

unknown_suffix_example : human_readable_to_bytes (codes "10PB") ≡ none
unfolding human_readable_to_bytes
unknown_suffix_example = refl

-- None is left as it is.
nothing_example :
    build_config (record settings { max_queue_size = some nothing })
    ≡ some (record runtime_config { max_queue_size = none })
unfolding build_config ◌*ℤ◌
nothing_example = refl
