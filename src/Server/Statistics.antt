-- ===== src/Server/Statistics.antt =====
-- The page of statistics: log_statistics.go, and `StatisticsString` of replication_targets.go.
pub mod Lines
pub mod Scraped
use verm.Prelude.{ℕ, List, [], ◌∷◌, ◌++◌, Bytes, codes}
use verm.Prelude.Int.{ℤ, wrap64}
use verm.Prelude.Decimal.{itoa}
use verm.Ranges.{decimal}
use verm.Replication.Targets.{NamedTarget}
use verm.Server.{LogStatistics}

-- `promMetricOptions`
pub record MetricOptions : Type 0 where
  pub name : Bytes
  pub metric_type : Bytes
  pub description : Bytes

-- A text and the end of its line.
unfoldable pub line : Bytes → Bytes
line text = text ++ 10 ∷ []

-- `PrintStatistics` of a metric with a value
unfoldable pub print_statistics : MetricOptions → ℕ → Bytes
print_statistics o n =
    line (codes "# HELP " ++ (o.name ++ (codes " " ++ o.description)))
    ++ (line (codes "# TYPE " ++ (o.name ++ (codes " " ++ o.metric_type)))
        ++ line (o.name ++ b' ' ∷ itoa n))

-- The options of the metrics that `NewLogStatistics` makes, one for each counter.
pub record MetricTable : Type 0 where
  pub get_requests : MetricOptions
  pub get_requests_found_on_replica : MetricOptions
  pub get_requests_not_found : MetricOptions
  pub post_requests : MetricOptions
  pub post_requests_new_file_stored : MetricOptions
  pub post_requests_failed : MetricOptions
  pub put_requests : MetricOptions
  pub put_requests_new_file_stored : MetricOptions
  pub put_requests_missing_file_checks : MetricOptions
  pub put_requests_failed : MetricOptions
  pub replication_push_attempts : MetricOptions
  pub replication_push_attempts_failed : MetricOptions
  pub connections_current : MetricOptions

-- `NewLogStatistics`
unfoldable pub new_log_statistics : MetricTable
new_log_statistics = record {
  get_requests = record {
    name = codes "verm_get_requests_total";
    metric_type = codes "counter";
    description = codes "GET requests served";
  };
  get_requests_found_on_replica = record {
    name = codes "verm_get_requests_found_on_replica_total";
    metric_type = codes "counter";
    description = codes "GET requests found on replica";
  };
  get_requests_not_found = record {
    name = codes "verm_get_requests_not_found_total";
    metric_type = codes "counter";
    description = codes "GET requests not found";
  };
  post_requests = record {
    name = codes "verm_post_requests_total";
    metric_type = codes "counter";
    description = codes "POST requests served";
  };
  post_requests_new_file_stored = record {
    name = codes "verm_post_requests_new_file_stored_total";
    metric_type = codes "counter";
    description = codes "POST requests resulting in a new file stored";
  };
  post_requests_failed = record {
    name = codes "verm_post_requests_failed_total";
    metric_type = codes "counter";
    description = codes "POST requests failed";
  };
  put_requests = record {
    name = codes "verm_put_requests_total";
    metric_type = codes "counter";
    description = codes "PUT requests served";
  };
  put_requests_new_file_stored = record {
    name = codes "verm_put_requests_new_file_stored_total";
    metric_type = codes "counter";
    description = codes "PUT requests resulting in a new file stored";
  };
  put_requests_missing_file_checks = record {
    name = codes "verm_put_requests_missing_file_checks_total";
    metric_type = codes "counter";
    description = codes "PUT requests checking for missing files";
  };
  put_requests_failed = record {
    name = codes "verm_put_requests_failed_total";
    metric_type = codes "counter";
    description = codes "PUT requests failed";
  };
  replication_push_attempts = record {
    name = codes "verm_replication_push_attempts_total";
    metric_type = codes "counter";
    description = codes "Replication push attempts";
  };
  replication_push_attempts_failed = record {
    name = codes "verm_replication_push_attempts_failed_total";
    metric_type = codes "counter";
    description = codes "Replication push attempts failed";
  };
  connections_current = record {
    name = codes "verm_connections_current";
    metric_type = codes "gauge";
    description = codes "HTTP connections";
  };
}

-- The metrics that `serveStatistics` prints, in its order, with the values of the counters.
unfoldable pub metrics : LogStatistics → List (MetricOptions × ℕ)
unfolding new_log_statistics
metrics stats =
    (new_log_statistics.get_requests, stats.get_requests)
    ∷ (new_log_statistics.get_requests_found_on_replica, stats.get_requests_found_on_replica)
    ∷ (new_log_statistics.get_requests_not_found, stats.get_requests_not_found)
    ∷ (new_log_statistics.post_requests, stats.post_requests)
    ∷ (new_log_statistics.post_requests_new_file_stored, stats.post_requests_new_file_stored)
    ∷ (new_log_statistics.post_requests_failed, stats.post_requests_failed)
    ∷ (new_log_statistics.put_requests, stats.put_requests)
    ∷ (new_log_statistics.put_requests_new_file_stored, stats.put_requests_new_file_stored)
    ∷ (new_log_statistics.put_requests_missing_file_checks, stats.put_requests_missing_file_checks)
    ∷ (new_log_statistics.put_requests_failed, stats.put_requests_failed)
    ∷ (new_log_statistics.replication_push_attempts, stats.replication_push_attempts)
    ∷ (new_log_statistics.replication_push_attempts_failed, stats.replication_push_attempts_failed)
    ∷ (new_log_statistics.connections_current, stats.connections_current)
    ∷ []

unfoldable pub print_metrics : List (MetricOptions × ℕ) → Bytes
print_metrics [] = []
print_metrics ((o, n) ∷ ms) = print_statistics o n ++ print_metrics ms

-- `queueLength`: the counter as an `int`
unfoldable pub queue_length : NamedTarget → ℤ
queue_length t = wrap64 t.queues.unfinished_jobs 0

unfoldable pub queue_metric : Bytes
queue_metric = codes "verm_replication_queue_length"

-- The name of the metric with the label of a target.
unfoldable pub queue_label : NamedTarget → Bytes
queue_label t =
    queue_metric ++ (codes "{target=\"" ++ (t.hostname ++ (codes ":" ++ (t.port ++ codes "\"}"))))

-- The loop of `StatisticsString`.
unfoldable pub print_queues : List NamedTarget → Bytes
print_queues [] = []
print_queues (t ∷ targets) =
    line (queue_label t ++ b' ' ∷ decimal (queue_length t)) ++ print_queues targets

-- `StatisticsString`
unfoldable pub statistics_string : List NamedTarget → Bytes
statistics_string [] = []
statistics_string (t ∷ targets) =
    line (
      codes "# HELP "
      ++ (queue_metric
          ++ codes " Number of files in the queue to be replicated to each configured replica."))
    ++ (line (codes "# TYPE " ++ (queue_metric ++ codes " gauge")) ++ print_queues (t ∷ targets))

-- What `serveStatistics` writes.
unfoldable pub serve_statistics : LogStatistics → List NamedTarget → Bytes
serve_statistics stats targets = print_metrics (metrics stats) ++ statistics_string targets
